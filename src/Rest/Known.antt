-- ===== src/Rest/Known.antt =====
-- The users and the items in the orders of the split order service.
use Prim.Native.String.{String}
use ss2025_web.Base.{
  map, ◌∙◌, ap, sym, ℕ, Bool, true, ◌≡◌, refl, ◌⊎◌, inl, inr, some, List, [], ◌∷◌, ◌++◌, ok, err,
  arith, Result-cases, Option-cases,
}
use mathlib.Core.List.{append-nil, append_assoc, map-append}
use ss2025_web.Base.Decimal.{decimal}
use ss2025_web.Base.Word.{ℤ, Float64}
use ss2025_web.Gorm.{DbError, Table, IsTable}
use ss2025_web.User.{User}
use ss2025_web.Order.{Order, OrderItem}
use ss2025_web.Order.Server.{pending_order}
use ss2025_web.Order.RoundTrip.{Line, line, columns, order_model}
use ss2025_web.Http.{fresh, Chunk, plain}
use ss2025_web.Http.Handler.{Conn, run}
use ss2025_web.Http.Reply.{json_reply}
use ss2025_web.Rest.{Value, ItemBody, OrderBody}
use ss2025_web.Rest.Users
use ss2025_web.Rest.Orders.{
  user_url, Response, HttpGet, accepted, menu_url, add_items, create_order, new_order_item,
}
use ss2025_web.Rest.Loop.{response_of}
use ss2025_web.Rest.Prices.{
  place, place_saved, place_refused, create_order-place, create_order-unknown, create_order-refused,
}

-- A GET of a user is an error of the network or the user service's reply.
abbrev pub AsksUsers : {S : Type 0} → HttpGet S → Table S User → (Value → Bool) → Type 0
AsksUsers {S} http_get users marshals =
    (i : ℕ) (s : S)
    → ((e : String) × (http_get (user_url i) s ≡ (err e, s)))
      ⊎ (http_get (user_url i) s ≡ response_of (run (Users.get_user users marshals (decimal i)) s))

-- A line but for its price.
abbrev pub wanted : Line → ℕ × ℤ
wanted (i, q, p) = (i, q)

abbrev pub body_wanted : ItemBody → ℕ × ℤ
body_wanted i = (i.menu_item_id, i.quantity)

abbrev pub item_wanted : OrderItem → ℕ × ℤ
item_wanted i = (i.menu_item_id, i.quantity)

wanted_lines : (is : List OrderItem) → map wanted (map line is) ≡ map item_wanted is
wanted_lines [] = refl
wanted_lines (i ∷ is) = ap (λ l. item_wanted i ∷ l) (wanted_lines is)

module _ {S : Type 0} (users : Table S User) (marshals : Value → Bool)
    (all : (v : Value) → marshals v ≡ true) where
  user_missing :
      (i : ℕ) (s : S) (d : DbError)
      → users.first_raw (decimal i) s ≡ err d
      → response_of (run (Users.get_user users marshals (decimal i)) s)
        ≡ (ok (record { status = 404; body = plain "User not found" ∷ [] }), s)
  unfolding Users.get_user
  user_missing i s d h = ground arith

  accepted_user :
      (i : ℕ) (s : S) (r : Response)
      → accepted (response_of (run (Users.get_user users marshals (decimal i)) s)).0 ≡ ok r
      → (u : User) × (users.first_raw (decimal i) s ≡ ok u)
  accepted_user i s r h = elim (Result-cases (users.first_raw (decimal i) s)) [
    | inl (u, e) ↦ (u, e)
    | inr (d, e) ↦ absurd (ground (arith, sym h ∙ ap (λ p. accepted p.0) (user_missing i s d e)))
  ]

  asked_user :
      (http_get : HttpGet S) (asks : AsksUsers http_get users marshals) (i : ℕ) (s : S)
      (r : Response)
      → accepted (http_get (user_url i) s).0 ≡ ok r
      → (u : User) × (users.first_raw (decimal i) s ≡ ok u)
  asked_user http_get asks i s r h = elim (asks i s) [
    | inl (e, k) ↦ absurd (ground (arith, sym h ∙ ap (λ p. accepted p.0) k))
    | inr k ↦ accepted_user i s r (sym (ap (λ p. accepted p.0) k) ∙ h)
  ]

module _ {S : Type 0} (http_get : HttpGet S) (price_of : List (Chunk Value) → Float64) where
  add_items_wanted :
      (acc out : List OrderItem) (items : List ItemBody) (c c' : Conn S Value)
      → add_items http_get price_of acc items c ≡ (some out, c')
      → c.writer ≡ fresh
      → (map item_wanted out ≡ map item_wanted acc ++ map body_wanted items) × (c'.writer ≡ fresh)
  unfolding add_items
  add_items_wanted acc out [] c c' h f =
      let same : out ≡ acc = ground arith in
      (ap (map item_wanted) same ∙ sym (append-nil (map item_wanted acc)), ground arith)
  add_items_wanted acc out (item ∷ rest) c c' h f =
      let answered = http_get (menu_url item.menu_item_id) c.state in
      elim (Result-cases (accepted answered.0)) [
        | inl (r, e) ↦
            let i = new_order_item item (price_of r.body) in
            let (later, kept) =
              add_items_wanted (acc ++ i ∷ []) out rest (record c { state = answered.1 }) c'
                (ground arith) f in
            (
              later
                  ∙ ap (λ l. l ++ map body_wanted rest) (map-append item_wanted acc (i ∷ []))
                  ∙ append_assoc (map item_wanted acc) (item_wanted i ∷ []) (map body_wanted rest),
              kept,
            )
        | inr (m, e) ↦ absurd (ground arith)
      ]

-- What an order says of a body: its user, that it is pending, and its items in order.
pub record Matches (req : OrderBody) (o : Order) : Type 0 where
  pub user_id : o.user_id ≡ req.user_id
  pub status : o.status ≡ "pending"
  pub items : map item_wanted o.order_items ≡ map body_wanted req.items

module _ {S : Type 0} (orders : Table S Order)
    (lawful : IsTable orders ("OrderItems" ∷ []) order_model columns) (marshals : Value → Bool)
    (all : (v : Value) → marshals v ≡ true) where
  stored-Matches :
      (req : OrderBody) (items : List OrderItem) (s s' : S) (o : Order)
      → orders.create (pending_order req.user_id items) s ≡ (ok o, s')
      → map item_wanted items ≡ map body_wanted req.items
      → Matches req o
  stored-Matches req items s s' o e k =
      let same = lawful.create_view (pending_order req.user_id items) o s s' e in
      record {
        user_id = ap (λ v. v.0) same;
        status = ap (λ v. v.1) same;
        items =
            sym (wanted_lines o.order_items)
            ∙ ap (λ v. map wanted v.2) same
            ∙ wanted_lines items
            ∙ k;
      }

  place-Matches :
      (req : OrderBody) (items : List OrderItem) (c : Conn S Value) (o : Order)
      → c.writer ≡ fresh
      → (place orders marshals req.user_id items c).1.writer ≡ json_reply 201 (Value.order o)
      → map item_wanted items ≡ map body_wanted req.items
      → Matches req o
  place-Matches req items c o f h k =
      let made = orders.create (pending_order req.user_id items) c.state in
      elim (Result-cases made.0) [
        | inl (o', e) ↦
            let same = sym h ∙ place_saved orders lawful marshals all req.user_id items c o' f e in
            let one : o' ≡ o = ground arith in
            stored-Matches req items c.state made.1 o (ap (λ r. (r, made.1)) (e ∙ ap ok one)) k
        | inr (d, e) ↦ absurd (
            ground
              (arith, sym h ∙ place_refused orders lawful marshals all req.user_id items c d f e))
      ]

-- While every value can be marshalled, the table of orders meets Gorm.IsTable, and a GET of a
-- user is answered by the handler of the user service or fails: every order that the split order
-- service answers with 201 is of a user whom the user service finds by the ID in the body, and it is
-- pending, of that ID, with the items and quantities of the body in order.
pub create_order_known :
    {S : Type 0} (http_get : HttpGet S) (price_of : List (Chunk Value) → Float64)
    (users : Table S User) (orders : Table S Order)
    (lawful : IsTable orders ("OrderItems" ∷ []) order_model columns) (marshals : Value → Bool)
    (all : (v : Value) → marshals v ≡ true) (asks : AsksUsers http_get users marshals)
    (req : OrderBody) (s : S) (o : Order)
    → (run (create_order http_get price_of orders marshals (ok req)) s).writer
      ≡ json_reply 201 (Value.order o)
    → ((u : User) × (users.first_raw (decimal req.user_id) s ≡ ok u)) × Matches req o
create_order_known {S} http_get price_of users orders lawful marshals all asks req s o h =
    let c : Conn S Value = record {
      state = (http_get (user_url req.user_id) s).1;
      writer = fresh;
    } in
    elim (Result-cases (accepted (http_get (user_url req.user_id) s).0)) [
      | inl (r, e) ↦ elim (Option-cases (add_items http_get price_of [] req.items c).0) [
        | inl n ↦ absurd (
            ground
              (arith, sym h ∙ create_order-refused http_get price_of orders marshals req s r e n))
        | inr (items, k) ↦
            let c' = (add_items http_get price_of [] req.items c).1 in
            let made : add_items http_get price_of [] req.items c ≡ (some items, c') =
              ap (λ x. (x, c')) k in
            let (matched, kept) =
              add_items_wanted http_get price_of [] items req.items c c' made refl in
            (
              asked_user users marshals all http_get asks req.user_id s r e,
              place-Matches orders lawful marshals all req items c' o kept
                  (sym (
                      ap (λ d. d.writer)
                        (create_order-place http_get price_of orders marshals req s r items c' e
                          made))
                    ∙ h)
                  matched,
            )
      ]
      | inr (m, e) ↦
          absurd (
            ground
              (arith, sym h ∙ create_order-unknown http_get price_of orders marshals req s m e))
    ]
