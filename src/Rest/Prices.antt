-- ===== src/Rest/Prices.antt =====
-- The prices in the orders of the split order service.
use ss2025_web.Http.{encode, write_header, fresh, Chunk}
use ss2025_web.Http.Handler.{
  respond, set_json, fail, or_fail, call, Handler, Conn, run, ◌>>=◌, ◌>>◌,
}
use ss2025_web.Rest.Orders.{
  user_url, Response, HttpGet, accepted, menu_url, add_items, create_order, new_order_item,
}
use ss2025_web.Http.Reply.{error_reply, json_reply}
use ss2025_web.Order.Server.{pending_order}
use ss2025_web.Order.RoundTrip.{line, columns, order_model}
use ss2025_web.Base.{
  map, ◌∙◌, ap, sym, ℕ, Bool, true, ◌≡◌, refl, inl, inr, some, none, List, [], ◌∷◌, ◌++◌, All, ok,
  err, arith, Result-cases, Option-cases,
}
use ss2025_web.Gorm.{DbError, Table, IsTable}
use Prim.Native.String.{String}
use ss2025_web.Base.Word.{Float64}
use ss2025_web.Menu.{Menu}
use ss2025_web.Order.{Order, OrderItem}
use ss2025_web.Rest.{Value, ItemBody, OrderBody}
use ss2025_web.Rest.Loop.{AsksMenus, NoPrice, Free, add_items-Free}

-- The end of `CreateOrder`, once the items are known.
abbrev pub place :
    {S : Type 0} → Table S Order → (Value → Bool) → ℕ → List OrderItem → Handler S Value (Unit {0})
place orders marshals user_id items = do
  created ← call (orders.create (pending_order user_id items))
  order ← or_fail created (λ e. fail (orders.error_text e) 500)
  set_json
  respond (write_header 201)
  respond (encode marshals (Value.order order))

module _ {S : Type 0} (orders : Table S Order)
    (lawful : IsTable orders ("OrderItems" ∷ []) order_model columns) (marshals : Value → Bool)
    (all : (v : Value) → marshals v ≡ true) where
  lines-Free : (is js : List OrderItem) → map line is ≡ map line js → All Free js → All Free is
  lines-Free [] js e h = tt
  lines-Free (i ∷ is) [] e h = absurd (ground arith)
  lines-Free (i ∷ is) (j ∷ js) e (p, h) = (ground arith, lines-Free is js (ground arith) h)

  pub place_saved :
      (user_id : ℕ) (items : List OrderItem) (c : Conn S Value) (o : Order)
      → c.writer ≡ fresh
      → (orders.create (pending_order user_id items) c.state).0 ≡ ok o
      → (place orders marshals user_id items c).1.writer ≡ json_reply 201 (Value.order o)
  place_saved user_id items c o f e = ground (arith, all (Value.order o))

  pub place_refused :
      (user_id : ℕ) (items : List OrderItem) (c : Conn S Value) (d : DbError)
      → c.writer ≡ fresh
      → (orders.create (pending_order user_id items) c.state).0 ≡ err d
      → (place orders marshals user_id items c).1.writer ≡ error_reply (orders.error_text d) 500
  place_refused user_id items c d f e = ground arith

  stored-Free :
      (user_id : ℕ) (items : List OrderItem) (s : S) (o : Order)
      → (orders.create (pending_order user_id items) s).0 ≡ ok o
      → All Free items
      → All Free o.order_items
  stored-Free user_id items s o e k =
      lines-Free o.order_items items
        (ap (λ v. v.2)
          (lawful.create_view (pending_order user_id items) o s
            (orders.create (pending_order user_id items) s).1 (ground arith)))
        k

  place-Free :
      (user_id : ℕ) (items : List OrderItem) (c : Conn S Value) (o : Order)
      → c.writer ≡ fresh
      → (place orders marshals user_id items c).1.writer ≡ json_reply 201 (Value.order o)
      → All Free items
      → All Free o.order_items
  place-Free user_id items c o f h k =
      elim (Result-cases (orders.create (pending_order user_id items) c.state).0) [
        | inl (o', e) ↦
            let same = sym h ∙ place_saved user_id items c o' f e in
            stored-Free user_id items c.state o (ground arith) k
        | inr (d, e) ↦ absurd (ground (arith, sym h ∙ place_refused user_id items c d f e))
      ]

module _ {S : Type 0} (http_get : HttpGet S) (price_of : List (Chunk Value) → Float64)
    (orders : Table S Order) (marshals : Value → Bool) where
  -- The handler, with the answer about the user and the items of the loop given.
  pub create_order-place :
      (req : OrderBody) (s : S) (r : Response) (items : List OrderItem) (c : Conn S Value)
      → accepted (http_get (user_url req.user_id) s).0 ≡ ok r
      → add_items http_get price_of [] req.items
          (record { state = (http_get (user_url req.user_id) s).1; writer = fresh })
        ≡ (some items, c)
      → run (create_order http_get price_of orders marshals (ok req)) s
        ≡ (place orders marshals req.user_id items c).1
  unfolding create_order
  create_order-place req s r items c e k = ground arith

  add_items_refused :
      (acc : List OrderItem) (items : List ItemBody) (c : Conn S Value)
      → c.writer ≡ fresh
      → (add_items http_get price_of acc items c).0 ≡ none
      → (add_items http_get price_of acc items c).1.writer ≡ error_reply "Menu item not found" 400
  unfolding add_items
  add_items_refused acc [] c f h = absurd (ground arith)
  add_items_refused acc (item ∷ rest) c f h =
      let url = menu_url item.menu_item_id in
      elim (Result-cases (accepted (http_get url c.state).0)) [
        | inl (r, e) ↦ ground (
          arith,
          add_items_refused (acc ++ new_order_item item (price_of r.body) ∷ []) rest
              (record c { state = (http_get url c.state).1 }) f,
        )
        | inr (m, e) ↦ ground arith
      ]

  pub create_order-unknown :
      (req : OrderBody) (s : S) (m : String)
      → accepted (http_get (user_url req.user_id) s).0 ≡ err m
      → (run (create_order http_get price_of orders marshals (ok req)) s).writer
        ≡ error_reply "User not found" 400
  unfolding create_order
  create_order-unknown req s m e = ground arith

  pub create_order-refused :
      (req : OrderBody) (s : S) (r : Response)
      → accepted (http_get (user_url req.user_id) s).0 ≡ ok r
      → (add_items http_get price_of [] req.items
          (record { state = (http_get (user_url req.user_id) s).1; writer = fresh })).0
        ≡ none
      → (run (create_order http_get price_of orders marshals (ok req)) s).writer
        ≡ error_reply "Menu item not found" 400
  unfolding create_order
  create_order-refused req s r e k = ground (
    arith,
    add_items_refused [] req.items
        (record { state = (http_get (user_url req.user_id) s).1; writer = fresh }) refl k,
  )

-- While every value can be marshalled, the table of orders meets Gorm.IsTable, a GET of a
-- menu item is answered by the handler of the menu service or fails, and decoding a menu into a
-- struct of a price leaves the price zero: every order that the split order service answers with
-- 201 has price zero on all of its items.
pub create_order-Free :
    {S : Type 0} (http_get : HttpGet S) (price_of : List (Chunk Value) → Float64)
    (menus : Table S Menu) (orders : Table S Order)
    (lawful : IsTable orders ("OrderItems" ∷ []) order_model columns) (marshals : Value → Bool)
    (all : (v : Value) → marshals v ≡ true) (asks : AsksMenus http_get menus marshals)
    (free : NoPrice price_of) (req : OrderBody) (s : S) (o : Order)
    → (run (create_order http_get price_of orders marshals (ok req)) s).writer
      ≡ json_reply 201 (Value.order o)
    → All Free o.order_items
create_order-Free {S} http_get price_of menus orders lawful marshals all asks free req s o h =
    let c : Conn S Value = record {
      state = (http_get (user_url req.user_id) s).1;
      writer = fresh;
    } in
    elim (Result-cases (accepted (http_get (user_url req.user_id) s).0)) [
      | inl (r, e) ↦ elim (Option-cases (add_items http_get price_of [] req.items c).0) [
        | inl n ↦ absurd (
            ground
              (arith, sym h ∙ create_order-refused http_get price_of orders marshals req s r e n))
        | inr (items, k) ↦
            let c' = (add_items http_get price_of [] req.items c).1 in
            let made : add_items http_get price_of [] req.items c ≡ (some items, c') =
              ground arith in
            let (priced, kept) =
              add_items-Free http_get price_of menus marshals all asks free [] req.items c c' items
                made tt in
            place-Free orders lawful marshals all req.user_id items c' o kept
              (sym (
                  ap (λ d. d.writer)
                    (create_order-place http_get price_of orders marshals req s r items c' e made))
                ∙ h)
              priced
      ]
      | inr (m, e) ↦
          absurd (
            ground
              (arith, sym h ∙ create_order-unknown http_get price_of orders marshals req s m e))
    ]
