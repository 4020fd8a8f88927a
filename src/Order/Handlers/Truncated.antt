-- ===== src/Order/Handlers/Truncated.antt =====
-- The IDs that the REST handler CreateOrder asks for, beside those that it stores.
use ss2025_web.Http.Handler.{Conn}
use ss2025_web.Rpc.Inversion.{bind-returns}
use ss2025_web.Http.Serve.{Serve, call, fail, or_fail, respond, set_json, serve}
use ss2025_web.Base.{
  ℕ, Bool, Bool-cases, ◌^◌, ◌%◌, ◌≡◌, ap, sym, ◌∙◌, inl, inr, List, [], ◌∷◌, ◌++◌, map, ok, arith,
  Result-cases, Option-cases,
}
use mathlib.Core.List.{append-nil, append_assoc, map-append}
use ss2025_web.Base.Word.{to_u32}
use ss2025_web.Gorm.{Table}
use ss2025_web.Rpc.{◌>>=◌, ◌>>◌, returns}
use ss2025_web.User.{GetUserResponse}
use ss2025_web.Order.{Order, OrderItem}
use ss2025_web.Order.Server.{OrderServer, pending_order}
use ss2025_web.Order.Handlers.{ItemBody, OrderBody, new_order_item, add_items, create_order}
use ss2025_web.Http.{write_header, encode, fresh}
use ss2025_web.Rest.{Value}

abbrev pub item_ids : List OrderItem → List ℕ
item_ids = map (λ i. i.menu_item_id)

abbrev pub body_ids : List ItemBody → List ℕ
body_ids = map (λ i. i.menu_item_id)

module _ {S Err : Type 0} (srv : OrderServer S Err) where
  add_items_ids :
      (acc out : List OrderItem) (items : List ItemBody) (c c' : Conn S Value)
      → add_items srv acc items c ≡ (returns out, c')
      → item_ids out ≡ item_ids acc ++ body_ids items
  unfolding add_items
  add_items_ids acc out [] c c' h =
      let same : out ≡ acc = ground arith in ap item_ids same ∙ sym (append-nil (item_ids acc))
  add_items_ids acc out (item ∷ rest) c c' h =
      let answered =
        srv.menu_client.get_menu_item (record { id = to_u32 item.menu_item_id }) c.state in
      elim (Result-cases answered.0) [
        | inl (resp, e) ↦ elim (Option-cases resp.menu_item) [
          | inl n ↦ absurd (ground arith)
          | inr (m, k) ↦
              let added = acc ++ new_order_item item m.price ∷ [] in
              let later =
                add_items_ids added out rest (record c { state = answered.1 }) c' (ground arith) in
              later
              ∙ ap (λ l. l ++ body_ids rest)
                  (map-append (λ i. i.menu_item_id) acc (new_order_item item m.price ∷ []))
              ∙ append_assoc (item_ids acc) (item.menu_item_id ∷ []) (body_ids rest)
        ]
        | inr (d, e) ↦ absurd (ground arith)
      ]

  module _ (db : Table S Order) (marshals : Value → Bool) where
    -- The insert and the reply.
    abbrev finish_of : OrderBody → List OrderItem → Serve S Value (Unit {0})
    finish_of b items = do
      created ← call (db.create (pending_order b.user_id items))
      order ← or_fail created (λ e. fail (db.error_text e) 500)
      set_json
      respond (write_header 201)
      respond (encode marshals (Value.order order))

    finish_inv :
        (b : OrderBody) (out : List OrderItem) (c c' : Conn S Value)
        → finish_of b out c ≡ (returns tt, c')
        → (o : Order) × (db.create (pending_order b.user_id out) c.state ≡ (ok o, c'.state))
    finish_inv b out c c' h =
        elim (Result-cases (db.create (pending_order b.user_id out) c.state).0) [
          | inl (o, e) ↦ elim (Bool-cases (marshals (Value.order o))) [
            | inl y ↦ (o, ground arith)
            | inr n ↦ (o, ground arith)
          ]
          | inr (d, e) ↦ absurd (ground arith)
        ]

    -- Where the REST handler accepts an order, the user service has answered for the user ID of the
    -- body modulo 2^32, and the table has stored a pending order under the user ID of the body itself,
    -- with items of the menu item IDs of the body.
    pub create_order_truncates :
        (b : OrderBody) (s : S) (c : Conn S Value)
        → serve (create_order srv db marshals (ok b)) s ≡ (returns tt, c)
        → (g : GetUserResponse) × (s1 : S) × (s2 : S) × (out : List OrderItem) × (o : Order)
          × (srv.user_client.get_user (record { id = b.user_id % 2 ^ 32 }) s ≡ (ok g, s1))
          × (item_ids out ≡ body_ids b.items)
          × (db.create (pending_order b.user_id out) s2 ≡ (ok o, c.state))
    unfolding create_order to_u32
    create_order_truncates b s c h =
        let answered = srv.user_client.get_user (record { id = b.user_id % 2 ^ 32 }) s in
        elim (Result-cases answered.0) [
          | inl (g, e) ↦
              let (out, c1, looped, ended) =
                bind-returns (add_items srv [] b.items) (finish_of b)
                  (record { state = answered.1; writer = fresh }) c tt (ground arith) in
              let (o, made) = finish_inv b out c1 c ended in
              (
                g,
                answered.1,
                c1.state,
                out,
                o,
                ap (λ a. (a, answered.1)) e,
                add_items_ids [] out b.items (record { state = answered.1; writer = fresh }) c1
                    looped,
                made,
              )
          | inr (d, e) ↦ absurd (ground arith)
        ]
