-- ===== src/Rest/Loop.antt =====
-- The loop of the split order service, beside the handler of the menu service that it asks.
use ss2025_web.Http.{plain, Chunk, json, status_of}
use ss2025_web.Http.Handler.{Conn, run}
use ss2025_web.Rest.Orders.{Response, HttpGet, accepted, menu_url, add_items, new_order_item}
use ss2025_web.Base.{
  ◌∙◌, ap, sym, ℕ, Bool, true, ◌≡◌, refl, ◌⊎◌, inl, inr, some, none, List, [], ◌∷◌, ◌++◌, All,
  Result, ok, err, arith, Result-cases,
}
use ss2025_web.Gorm.{DbError, Table}
use Prim.Native.String.{String}
use ss2025_web.Base.Decimal.{decimal}
use ss2025_web.Base.Word.{Float64}
use ss2025_web.Menu.{Menu}
use ss2025_web.Order.{OrderItem}
use ss2025_web.Rest.{Value, ItemBody}
use ss2025_web.Rest.Menus

-- The reply of a handler as `http.Get` shows it.
abbrev pub response_of : {S : Type 0} → Conn S Value → Result String Response × S
response_of c = (ok (record { status = status_of c.writer; body = c.writer.body }), c.state)

-- A GET of a menu item is an error of the network or the menu service's reply.
abbrev pub AsksMenus : {S : Type 0} → HttpGet S → Table S Menu → (Value → Bool) → Type 0
AsksMenus {S} http_get menus marshals =
    (i : ℕ) (s : S)
    → ((e : String) × (http_get (menu_url i) s ≡ (err e, s)))
      ⊎ (http_get (menu_url i) s ≡ response_of (run (Menus.get_menu menus marshals (decimal i)) s))

-- Decoding a menu into a struct of a price leaves the price zero.
abbrev pub NoPrice : (List (Chunk Value) → Float64) → Type 0
NoPrice price_of = (m : Menu) → price_of (json (Value.menu m) ∷ []) ≡ 0

abbrev pub Free : OrderItem → Type 0
Free i = i.price ≡ 0

All-append : (xs : List OrderItem) (y : OrderItem) → All Free xs → Free y → All Free (xs ++ y ∷ [])
All-append [] y h k = (k, tt)
All-append (x ∷ xs) y (e, h) k = (e, All-append xs y h k)

Free-of_some : (xs ys : List OrderItem) → some xs ≡ some ys → All Free xs → All Free ys
Free-of_some xs ys h k = ground arith

module _ {S : Type 0} (http_get : HttpGet S) (price_of : List (Chunk Value) → Float64)
    (menus : Table S Menu) (marshals : Value → Bool) (all : (v : Value) → marshals v ≡ true)
    (asks : AsksMenus http_get menus marshals) (free : NoPrice price_of) where
  menu_found :
      (i : ℕ) (s : S) (m : Menu)
      → menus.first_bound (decimal i) s ≡ ok m
      → response_of (run (Menus.get_menu menus marshals (decimal i)) s)
        ≡ (ok (record { status = 200; body = json (Value.menu m) ∷ [] }), s)
  unfolding Menus.get_menu
  menu_found i s m h = ground (arith, all (Value.menu m))

  menu_missing :
      (i : ℕ) (s : S) (d : DbError)
      → menus.first_bound (decimal i) s ≡ err d
      → response_of (run (Menus.get_menu menus marshals (decimal i)) s)
        ≡ (ok (record { status = 404; body = plain "Menu not found" ∷ [] }), s)
  unfolding Menus.get_menu
  menu_missing i s d h = ground arith

  accepted_free :
      (i : ℕ) (s s' : S) (r : Response) (a : Result String Response)
      → response_of (run (Menus.get_menu menus marshals (decimal i)) s) ≡ (a, s')
      → accepted a ≡ ok r
      → price_of r.body ≡ 0
  accepted_free i s s' r a h k = elim (Result-cases (menus.first_bound (decimal i) s)) [
    | inl (m, q) ↦
        let e : a ≡ ok (record { status = 200; body = json (Value.menu m) ∷ [] }) =
          ap (λ p. p.0) (sym h ∙ menu_found i s m q) in
        let same : ok r ≡ ok (record { status = 200; body = json (Value.menu m) ∷ [] }) =
          sym k ∙ ap accepted e in
        ground (arith, free m)
    | inr (d, q) ↦
        let e : a ≡ ok (record { status = 404; body = plain "Menu not found" ∷ [] }) =
          ap (λ p. p.0) (sym h ∙ menu_missing i s d q) in
        absurd (ground (arith, sym k ∙ ap accepted e))
  ]

  -- What the loop takes from the menu service.
  fetched_free :
      (i : ℕ) (s s' : S) (r : Response) (a : Result String Response)
      → http_get (menu_url i) s ≡ (a, s')
      → accepted a ≡ ok r
      → price_of r.body ≡ 0
  fetched_free i s s' r a h k = elim (asks i s) [
    | inl (e, p) ↦ absurd (ground arith)
    | inr p ↦ accepted_free i s s' r a (sym p ∙ h) k
  ]

  add_items_step :
      (acc : List OrderItem) (item : ItemBody) (rest : List ItemBody) (c : Conn S Value)
      (r : Response)
      → accepted (http_get (menu_url item.menu_item_id) c.state).0 ≡ ok r
      → add_items http_get price_of acc (item ∷ rest) c
        ≡ add_items http_get price_of
            (acc ++ new_order_item item (price_of r.body) ∷ [])
            rest
            (record c { state = (http_get (menu_url item.menu_item_id) c.state).1 })
  unfolding add_items
  add_items_step acc item rest c r e = ground arith

  add_items_stop :
      (acc : List OrderItem) (item : ItemBody) (rest : List ItemBody) (c : Conn S Value)
      (m : String)
      → accepted (http_get (menu_url item.menu_item_id) c.state).0 ≡ err m
      → (add_items http_get price_of acc (item ∷ rest) c).0 ≡ none
  unfolding add_items
  add_items_stop acc item rest c m e = ground arith

  pub add_items-Free :
      (acc : List OrderItem) (items : List ItemBody) (c c' : Conn S Value) (out : List OrderItem)
      → add_items http_get price_of acc items c ≡ (some out, c')
      → All Free acc
      → All Free out × (c'.writer ≡ c.writer)
  add_items-Free acc [] c c' out h k =
      unfold add_items in (Free-of_some acc out (ap (λ p. p.0) h) k, sym (ap (λ p. p.1.writer) h))
  add_items-Free acc (item ∷ rest) c c' out h k =
      let url = menu_url item.menu_item_id in
      elim (Result-cases (accepted (http_get url c.state).0)) [
        | inl (r, e) ↦
            add_items-Free (acc ++ new_order_item item (price_of r.body) ∷ []) rest
              (record c { state = (http_get url c.state).1 }) c' out
              (sym (add_items_step acc item rest c r e) ∙ h)
              (All-append acc (new_order_item item (price_of r.body)) k (
                fetched_free item.menu_item_id c.state (http_get url c.state).1 r
                  (http_get url c.state).0 refl e))
        | inr (m, e) ↦ absurd (cc (add_items_stop acc item rest c m e, ap (λ p. p.0) h))
      ]
