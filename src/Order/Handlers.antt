-- ===== src/Order/Handlers.antt =====
-- order-service/handlers/order_handlers.go: the REST handlers beside the gRPC server, which ask the
-- other two services over gRPC.
pub mod Agrees
pub mod Truncated
use ss2025_web.Base.{zero, ◌+◌, ◌-◌, ◌/◌, not, err, ℕ, Bool, List, [], ◌∷◌, ◌++◌, Result}
use Prim.Native.String.{String}
use ss2025_web.Base.Word.{ℤ, Float64, to_u32}
use ss2025_web.Gorm.{Table, zero_model}
use ss2025_web.Rpc.{pure, deref, ◌>>=◌, ◌>>◌}
use ss2025_web.Order.{Order, OrderItem}
use ss2025_web.Order.Server.{OrderServer, pending_order}
use ss2025_web.Http.{
  write_header, encode, status_bad_request, status_created, status_internal_server_error,
}
use ss2025_web.Http.Serve.{Serve, respond, call, query, fail, or_fail, set_json}
use ss2025_web.Rest.{Value}

-- An item of `CreateOrderRequest.Items`.
pub record ItemBody : Type 0 where
  pub menu_item_id : ℕ
  pub quantity : ℤ

-- `CreateOrderRequest`
pub record OrderBody : Type 0 where
  pub user_id : ℕ
  pub items : List ItemBody

-- The literal `models.OrderItem{…}`.
abbrev pub new_order_item : ItemBody → Float64 → OrderItem
new_order_item item price = record {
  model = zero_model;
  order_id = 0;
  menu_item_id = item.menu_item_id;
  quantity = item.quantity;
  price = price;
}

-- `GrpcClients` has the clients of an order server.
module _ {S Err : Type 0} (grpc_clients : OrderServer S Err) where
  -- The loop over `req.Items`.
  unfoldable pub add_items : List OrderItem → List ItemBody → Serve S Value (List OrderItem)
  add_items items [] = pure items
  add_items items (item ∷ rest) = do
    answer ←
        call (grpc_clients.menu_client.get_menu_item (record { id = to_u32 item.menu_item_id }))
    menu_item_resp ← or_fail answer (λ _. fail "Menu item not found" status_bad_request)
    menu_item ← deref menu_item_resp.menu_item
    add_items (items ++ new_order_item item menu_item.price ∷ []) rest

  module _ (db : Table S Order) (marshals : Value → Bool) where
    unfoldable pub create_order : Result String OrderBody → Serve S Value (Unit {0})
    create_order body = do
      req ← or_fail body (λ e. fail e status_bad_request)
      answer ← call (grpc_clients.user_client.get_user (record { id = to_u32 req.user_id }))
      or_fail answer (λ _. fail "User not found" status_bad_request)
      items ← add_items [] req.items
      created ← call (db.create (pending_order req.user_id items))
      order ← or_fail created (λ e. fail (db.error_text e) status_internal_server_error)
      set_json
      respond (write_header status_created)
      respond (encode marshals (Value.order order))

module _ {S : Type 0} (db : Table S Order) (marshals : Value → Bool) where
  unfoldable pub get_orders : Serve S Value (Unit {0})
  get_orders = do
    found ← query (db.find ("OrderItems" ∷ []))
    orders ← or_fail found (λ e. fail (db.error_text e) status_internal_server_error)
    set_json
    respond (encode marshals (Value.orders orders))
