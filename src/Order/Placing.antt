-- ===== src/Order/Placing.antt =====
-- The parts of `CreateOrder` of the order server, and the ways in which it ends.
use Prim.Native.String.{String}
use ss2025_web.Base.{◌≡◌, some, none, List, [], ok, err, arith, inl, inr, format_v, Result-cases}
use ss2025_web.Gorm.{Time, Table}
use ss2025_web.Rpc.{Status, Outcome, returns, fails, panics, internal, invalid_argument}
use ss2025_web.Rpc.Inversion.{writes}
use ss2025_web.User.{GetUserRequest, GetUserResponse}
use ss2025_web.Clients.{ReadsOnly}
use ss2025_web.Order.{OrderItem, Order, OrderItemRequest, CreateOrderRequest, CreateOrderResponse}
use ss2025_web.Order.Server.{
  OrderServer, pending_order, add_items, create_order, model_to_proto, menu_item_error,
}
use ss2025_web.Order.Snapshot.{Snapshots}
use ss2025_web.Order.Items.{Walk, all_priced, one_refused, one_empty, walk}

module _ {S Err : Type 0} (st : Status Err) (srv : OrderServer S Err) (db : Table S Order)
    (rfc3339 : Time → String) where
  -- The last part of `CreateOrder`, once every item is priced.
  abbrev pub save : CreateOrderRequest → List OrderItem → S → Outcome Err CreateOrderResponse × S
  save req items =
      writes (λ e. st.errorf internal (format_v "failed to create order: " (db.error_text e)))
        (λ o. record { order = some (model_to_proto rfc3339 o) })
        (db.create (pending_order req.user_id items))

  pub create_order-save :
      (req : CreateOrderRequest) (s : S) (u : GetUserResponse) (items : List OrderItem)
      → srv.user_client.get_user (record { id = req.user_id }) s ≡ (ok u, s)
      → add_items st srv [] req.items s ≡ (returns items, s)
      → create_order st srv db rfc3339 req s ≡ save req items s
  unfolding create_order
  create_order-save req s u items h k = ground arith

  pub create_order-unknown_user :
      (req : CreateOrderRequest) (s : S) (d : Err)
      → srv.user_client.get_user (record { id = req.user_id }) s ≡ (err d, s)
      → create_order st srv db rfc3339 req s
        ≡ (fails (st.errorf invalid_argument (format_v "user not found: " (st.text_of d))), s)
  unfolding create_order
  create_order-unknown_user req s d h = ground arith

  pub create_order-refused :
      (req : CreateOrderRequest) (s : S) (u : GetUserResponse) (e : Err)
      → srv.user_client.get_user (record { id = req.user_id }) s ≡ (ok u, s)
      → add_items st srv [] req.items s ≡ (fails e, s)
      → create_order st srv db rfc3339 req s ≡ (fails e, s)
  unfolding create_order
  create_order-refused req s u e h k = ground arith

  create_order-broken :
      (req : CreateOrderRequest) (s : S) (u : GetUserResponse)
      → srv.user_client.get_user (record { id = req.user_id }) s ≡ (ok u, s)
      → add_items st srv [] req.items s ≡ (panics, s)
      → create_order st srv db rfc3339 req s ≡ (panics, s)
  unfolding create_order
  create_order-broken req s u h k = ground arith

  -- The order was placed: the user is known, every item is priced, and the row is stored.
  pub record Placed (req : CreateOrderRequest) (s s' : S) (resp : CreateOrderResponse)
      : Type 0 where
    pub user : GetUserResponse
    pub known : srv.user_client.get_user (record { id = req.user_id }) s ≡ (ok user, s)
    pub items : List OrderItem
    pub priced : Snapshots srv s req.items items
    pub order : Order
    pub stored : db.create (pending_order req.user_id items) s ≡ (ok order, s')
    pub reply : resp ≡ record { order = some (model_to_proto rfc3339 order) }

  -- The ways in which `CreateOrder` can end.
  pub data Ending (req : CreateOrderRequest) (s : S) : Type 0 where
    placing :
        (u : GetUserResponse) (items : List OrderItem)
        → srv.user_client.get_user (record { id = req.user_id }) s ≡ (ok u, s)
        → Snapshots srv s req.items items
        → create_order st srv db rfc3339 req s ≡ save req items s
        → Ending req s
    unknown_user :
        (d : Err)
        → srv.user_client.get_user (record { id = req.user_id }) s ≡ (err d, s)
        → create_order st srv db rfc3339 req s
          ≡ (fails (st.errorf invalid_argument (format_v "user not found: " (st.text_of d))), s)
        → Ending req s
    unknown_item :
        (r : OrderItemRequest) (d : Err)
        → srv.menu_client.get_menu_item (record { id = r.menu_item_id }) s ≡ (err d, s)
        → create_order st srv db rfc3339 req s ≡ (fails (menu_item_error st r d), s)
        → Ending req s
    nil_item :
        (r : OrderItemRequest)
        → srv.menu_client.get_menu_item (record { id = r.menu_item_id }) s
          ≡ (ok (record { menu_item = none }), s)
        → create_order st srv db rfc3339 req s ≡ (panics, s)
        → Ending req s

  module _ (user_reads : ReadsOnly srv.user_client.get_user)
      (menu_reads : ReadsOnly srv.menu_client.get_menu_item) where
    Ending-of_Walk :
        (req : CreateOrderRequest) (s : S) (u : GetUserResponse)
        → srv.user_client.get_user (record { id = req.user_id }) s ≡ (ok u, s)
        → Walk st srv s [] req.items
        → Ending req s
    Ending-of_Walk req s u h (all_priced new p k) =
        placing u new h p (create_order-save req s u new h k)
    Ending-of_Walk req s u h (one_refused r d p k) =
        unknown_item r d p (create_order-refused req s u _ h k)
    Ending-of_Walk req s u h (one_empty r p k) = nil_item r p (create_order-broken req s u h k)

    pub ending : (req : CreateOrderRequest) (s : S) → Ending req s
    ending req s =
        let q : GetUserRequest = record { id = req.user_id } in
        let same = user_reads q s in
        elim (Result-cases (srv.user_client.get_user q s).0) [
          | inl (u, e) ↦
              Ending-of_Walk req s u (ground arith) (walk st srv menu_reads [] req.items s)
          | inr (d, e) ↦
              unknown_user d (ground arith) (create_order-unknown_user req s d (ground arith))
        ]
