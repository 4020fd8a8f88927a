-- ===== src/Discovery/Routing.antt =====
-- The routing rule of the practical2 gateway, in terms of whole paths.
use Prim.Native.String.{String, ◌++◌}
use Prim.Native.String.append
use text.Mathlib.Text.{◌==◌}
use text.Mathlib.TextEquality.{eq_iff}
use ss2025_web.Base.{
  ◌≡◌, refl, sym, ap, ◌∙◌, inl, inr, List, [], ◌∷◌, Result, ok, err, format_v, arith, Result-cases,
  Bool-cases,
}
use ss2025_web.Base.Paths.{split, join, trim_prefix, NoSlash, split_cons, join-split, split-append}
use ss2025_web.Discovery.{Consul}
use ss2025_web.Discovery.Gateway.{
  Routed, rejects, forwards, discover_service, route_segments, route_request,
}

-- A text in front of another, by its characters.
abbrev spell : String → String → String
spell String.[] t = t
spell (String.◌∷◌ c s) t = String.◌∷◌ c (spell s t)

append-spell : (s t : String) → s ++ t ≡ spell s t
append-spell String.[] t = append.nil t
append-spell (String.◌∷◌ c s) t = append.cons c s t ∙ ap (λ u. String.◌∷◌ c u) (append-spell s t)

join-cons :
    (part next : String) (parts : List String)
    → join (part ∷ next ∷ parts) ≡ part ++ String.◌∷◌ "/" (join (next ∷ parts))
unfolding join
join-cons part next parts = refl

-- What the handler does once it knows how the discovery went.
abbrev pub forwarded : Result String String → String → Routed
forwarded (err e) path = rejects e 503
forwarded (ok target) path = forwards target path

module _ {S : Type 0} (consul : Consul S) (parse_url : String → Result String String) (s : S) where
  route_segments-api :
      (name next : String) (rest : List String)
      → route_segments consul parse_url ("api" ∷ name ∷ next ∷ rest) s
        ≡ forwarded
            (discover_service consul parse_url (format_v name "-service") s)
            (format_v "/" (join (name ∷ next ∷ rest)))
  unfolding route_segments
  route_segments-api name next rest =
      elim (Result-cases (discover_service consul parse_url (format_v name "-service") s)) [
        | inl (u, e) ↦ ground arith
        | inr (d, e) ↦ ground arith
      ]

  split_api :
      (name rest : String)
      → NoSlash name
      → split (trim_prefix ("/api/" ++ (name ++ String.◌∷◌ "/" rest)) "/")
        ≡ "api" ∷ name ∷ split rest
  split_api name rest h =
      ap (λ p. split (trim_prefix p "/")) (append-spell "/api/" (name ++ String.◌∷◌ "/" rest))
      ∙ ap split (sym (append-spell "api" (String.◌∷◌ "/" (name ++ String.◌∷◌ "/" rest))))
      ∙ split-append "api" (name ++ String.◌∷◌ "/" rest) (refl, (refl, (refl, tt)))
      ∙ ap (λ l. "api" ∷ l) (split-append name rest h)

  -- A segment list that is forwarded.
  abbrev Forwarding : List String → String → String → Type 0
  Forwarding segments target kept =
      (name : String) × (next : String) × (rest : List String) × (segments
        ≡ "api" ∷ name ∷ next ∷ rest)
      × (kept ≡ format_v "/" (join (name ∷ next ∷ rest)))
      × (discover_service consul parse_url (format_v name "-service") s ≡ ok target)

  Forwarding-of_tests :
      (first name next : String) (rest : List String) (target kept : String)
      → route_segments consul parse_url (first ∷ name ∷ next ∷ rest) s ≡ forwards target kept
      → Forwarding (first ∷ name ∷ next ∷ rest) target kept
  unfolding route_segments
  Forwarding-of_tests first name next rest target kept h = elim (Bool-cases (first == "api")) [
    | inl y ↦ elim (Result-cases (discover_service consul parse_url (format_v name "-service") s)) [
      | inl (u, e) ↦ (
        name,
        next,
        rest,
        ap (λ f. f ∷ name ∷ next ∷ rest) ((eq_iff first "api").0 y),
        ground arith,
        ground arith,
      )
      | inr (d, e) ↦ absurd (ground arith)
    ]
    | inr n ↦ absurd (ground arith)
  ]

  route_segments-forwards :
      (segments : List String) (target kept : String)
      → route_segments consul parse_url segments s ≡ forwards target kept
      → Forwarding segments target kept
  route_segments-forwards [] target kept h = unfold route_segments in absurd (ground arith)
  route_segments-forwards (a ∷ []) target kept h = unfold route_segments in absurd (ground arith)
  route_segments-forwards (a ∷ b ∷ []) target kept h =
      unfold route_segments in absurd (ground arith)
  route_segments-forwards (a ∷ b ∷ c ∷ rest) target kept h =
      Forwarding-of_tests a b c rest target kept h

  -- A path that the practical2 gateway forwards lies below `/api`: it is forwarded without the
  -- `/api`, and its next segment names the service that was discovered.
  pub route_request-forwards :
      (path target kept : String)
      → route_request consul parse_url path s ≡ forwards target kept
      → (name : String) × (rest : String) × (kept ≡ "/" ++ (name ++ String.◌∷◌ "/" rest))
        × (trim_prefix path "/" ≡ "api" ++ kept)
        × (discover_service consul parse_url (format_v name "-service") s ≡ ok target)
  unfolding route_request format_v
  route_request-forwards path target kept h =
      let (name, next, rest, e, k, d) =
        route_segments-forwards (split (trim_prefix path "/")) target kept h in
      (
        name,
        join (next ∷ rest),
        k ∙ ap (λ t. "/" ++ t) (join-cons name next rest),
        sym (join-split (trim_prefix path "/"))
            ∙ ap join e
            ∙ join-cons "api" name (next ∷ rest)
            ∙ ap (λ t. "api" ++ t) (sym (k ∙ append-spell "/" (join (name ∷ next ∷ rest)))),
        d,
      )

  -- For a name without a slash, a path below `/api/<name>/` is forwarded, without the `/api`, to
  -- the service `<name>-service` when that is discovered, and is refused with 503 when it is not.
  pub route_request_api :
      (name rest : String)
      → NoSlash name
      → route_request consul parse_url ("/api/" ++ (name ++ String.◌∷◌ "/" rest)) s
        ≡ forwarded
            (discover_service consul parse_url (format_v name "-service") s)
            ("/" ++ (name ++ String.◌∷◌ "/" rest))
  unfolding route_request format_v
  route_request_api name rest h =
      let (next, parts, e) = split_cons rest in
      ap (λ l. route_segments consul parse_url l s)
        (split_api name rest h ∙ ap (λ l. "api" ∷ name ∷ l) e)
      ∙ route_segments-api name next parts
      ∙ ap
          (λ t.
            forwarded (discover_service consul parse_url (format_v name "-service") s) ("/" ++ t))
          (join-cons name next parts
            ∙ ap (λ t. name ++ String.◌∷◌ "/" t) (ap join (sym e) ∙ join-split rest))
