-- ===== src/Base/Paths.antt =====
-- Paths of URLs: `strings.Split(s, "/")`, `strings.Join(parts, "/")` and `strings.TrimPrefix`.
use Prim.Native.Char.{Char, code}
use Prim.Native.String.{String, ◌++◌}
use Prim.Native.String.append
use mathlib.Core.Path.{◌≡◌, refl, sym, ap, ◌∙◌}
use mathlib.Core.Bool.{false}
use mathlib.Core.Logic.{inl, inr}
use mathlib.Core.Option.{Option, none, some}
use mathlib.Core.List.{List, [], ◌∷◌}
use native.Mathlib.Omega.{arith}
use text.Mathlib.TextEquality.{Char-path}
use ss2025_web.Base.Tests.{◌==◌, if◌then◌else◌, Bool-cases}

-- A character in front of the first part.
abbrev into_first : Char → List String → List String
into_first c [] = (String.◌∷◌ c String.[]) ∷ []
into_first c (part ∷ parts) = (String.◌∷◌ c part) ∷ parts

unfoldable pub split : String → List String
split String.[] = "" ∷ []
split (String.◌∷◌ c s) =
    let parts = split s in if code c == b'/' then "" ∷ parts else into_first c parts

unfoldable pub join : List String → String
join [] = ""
join (part ∷ []) = part
join (part ∷ next ∷ parts) = part ++ (String.◌∷◌ "/" (join (next ∷ parts)))

-- What is left of a text behind a prefix.
abbrev pub behind : String → String → Option String
behind String.[] s = some s
behind (String.◌∷◌ c prefix) String.[] = none
behind (String.◌∷◌ c prefix) (String.◌∷◌ d s) =
    let rest = behind prefix s in if code c == code d then rest else none

abbrev pub trim_prefix : String → String → String
trim_prefix s prefix = elim (behind prefix s) [ none ↦ s | some rest ↦ rest ]

-- No part of a text without a slash is cut.
abbrev pub NoSlash : String → Type 0
NoSlash String.[] = Unit
NoSlash (String.◌∷◌ c s) = ((code c == b'/') ≡ false) × NoSlash s

pub split_cons : (s : String) → (part : String) × (parts : List String) × (split s ≡ part ∷ parts)
unfolding split
split_cons String.[] = ("", [], refl)
split_cons (String.◌∷◌ c s) =
    let (part, parts, e) = split_cons s in
    elim (Bool-cases (code c == b'/')) [
      | inl k ↦ ("", split s, ground arith)
      | inr k ↦ (String.◌∷◌ c part, parts, ground arith)
    ]

join-into_first :
    (c : Char) (part : String) (parts : List String)
    → join (into_first c (part ∷ parts)) ≡ String.◌∷◌ c (join (part ∷ parts))
unfolding join
join-into_first c part [] = refl
join-into_first c part (next ∷ parts) = append.cons c part _

join-slash :
    (part : String) (parts : List String)
    → join ("" ∷ part ∷ parts) ≡ String.◌∷◌ "/" (join (part ∷ parts))
unfolding join
join-slash part parts = append.nil _

-- Joining the parts of a text gives the text back.
pub join-split : (s : String) → join (split s) ≡ s
unfolding split
join-split String.[] = unfold join in refl
join-split (String.◌∷◌ c s) =
    let (part, parts, e) = split_cons s in
    elim (Bool-cases (code c == b'/')) [
      | inl k ↦
          rw (k, e)
            (let slash : c ≡ "/" = Char-path c "/" (ground arith) in
              join-slash part parts
              ∙ ap (λ t. String.◌∷◌ "/" t) (ap join (sym e) ∙ join-split s)
              ∙ ap (λ d. String.◌∷◌ d s) (sym slash))
      | inr k ↦
          rw (k, e)
            (join-into_first c part parts
              ∙ ap (λ t. String.◌∷◌ c t) (ap join (sym e) ∙ join-split s))
    ]

split-append_step :
    (c : Char) (part s : String)
    → (code c == b'/') ≡ false
    → split (part ++ String.◌∷◌ "/" s) ≡ part ∷ split s
    → split (String.◌∷◌ c part ++ String.◌∷◌ "/" s) ≡ String.◌∷◌ c part ∷ split s
unfolding split
split-append_step c part s k e = ap split (append.cons c part _) ∙ rw (k, e) refl

-- A part without slashes is split off whole.
pub split-append :
    (part s : String) → NoSlash part → split (part ++ String.◌∷◌ "/" s) ≡ part ∷ split s
split-append String.[] s h = ap split (append.nil _) ∙ unfold split in refl
split-append (String.◌∷◌ c part) s (k, h) = split-append_step c part s k (split-append part s h)

behind_step :
    (c : Char) (prefix r : String)
    → behind prefix (prefix ++ r) ≡ some r
    → behind (String.◌∷◌ c prefix) (String.◌∷◌ c prefix ++ r) ≡ some r
behind_step c prefix r e =
    ap (behind (String.◌∷◌ c prefix)) (append.cons c prefix r) ∙ ground (arith, e)

-- A prefix is trimmed.
pub behind-append : (prefix r : String) → behind prefix (prefix ++ r) ≡ some r
behind-append String.[] r = ap (λ t. some t) (append.nil r)
behind-append (String.◌∷◌ c prefix) r = behind_step c prefix r (behind-append prefix r)

-- Only a prefix is.
pub append-behind : (prefix s r : String) → behind prefix s ≡ some r → s ≡ prefix ++ r
append-behind String.[] s r e = ground (arith, append.nil r)
append-behind (String.◌∷◌ c prefix) String.[] r e = absurd (ground arith)
append-behind (String.◌∷◌ c prefix) (String.◌∷◌ d s) r e = elim (Bool-cases (code c == code d)) [
  | inl k ↦
      let same : c ≡ d = Char-path c d (ground arith) in
      ap (λ x. String.◌∷◌ x s) (sym same)
      ∙ ap (λ t. String.◌∷◌ c t) (append-behind prefix s r (ground arith))
      ∙ sym (append.cons c prefix r)
  | inr k ↦ absurd (ground arith)
]
