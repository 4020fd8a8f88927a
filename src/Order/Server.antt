-- ===== src/Order/Server.antt =====
-- order-service/grpc/server.go: `CreateOrder` asks the user service and the menu service before it
-- writes.
use Prim.Native.String.{String}
use ss2025_web.Base.{ℕ, some, List, [], ◌∷◌, ◌++◌, map, format_v}
use ss2025_web.Base.Word.{to_u32, int_to_i32, Float64}
use ss2025_web.Base.Decimal.{decimal}
use ss2025_web.Gorm.{Time, Table, zero_model}
use ss2025_web.Rpc.{
  Status, Rpc, Exec, internal, not_found, invalid_argument, pure, call, query, or_raise, on_error,
  deref, ◌>>=◌, ◌>>◌,
}
use ss2025_web.Order.{
  OrderItem, Order, OrderItemMessage, OrderMessage, OrderItemRequest, CreateOrderRequest,
  CreateOrderResponse, GetOrdersRequest, GetOrdersResponse, GetOrderRequest, GetOrderResponse,
}
use ss2025_web.Clients.{UserClient, MenuClient}

-- The struct `OrderServer`, with the state behind its clients.
pub record OrderServer (S Err : Type 0) : Type 0 where
  pub user_client : UserClient S Err
  pub menu_client : MenuClient S Err

-- The body of the loop in `modelToProto`.
abbrev pub item_to_proto : (Time → String) → OrderItem → OrderItemMessage
item_to_proto rfc3339 item = record {
  id = to_u32 item.model.id;
  order_id = to_u32 item.order_id;
  menu_item_id = to_u32 item.menu_item_id;
  quantity = int_to_i32 item.quantity;
  price = item.price;
  created_at = rfc3339 item.model.created_at;
  updated_at = rfc3339 item.model.updated_at;
}

-- `modelToProto`
unfoldable pub model_to_proto : (Time → String) → Order → OrderMessage
model_to_proto rfc3339 order = record {
  id = to_u32 order.model.id;
  user_id = to_u32 order.user_id;
  status = order.status;
  order_items = map (item_to_proto rfc3339) order.order_items;
  created_at = rfc3339 order.model.created_at;
  updated_at = rfc3339 order.model.updated_at;
}

-- The literal `models.OrderItem{…}` for one item of the request, at the price that was fetched.
abbrev pub new_order_item : OrderItemRequest → Float64 → OrderItem
new_order_item item price = record {
  model = zero_model;
  order_id = 0;
  menu_item_id = item.menu_item_id;
  quantity = item.quantity;
  price = price;
}

-- The literal `models.Order{…}`, with the items appended by the loop.
abbrev pub pending_order : ℕ → List OrderItem → Order
pending_order user_id items = record {
  model = zero_model;
  user_id = user_id;
  status = "pending";
  order_items = items;
}

-- `status.Errorf` in the loop over the items.
unfoldable pub menu_item_error : {Err : Type 0} → Status Err → OrderItemRequest → Err → Err
menu_item_error st item e = st.errorf invalid_argument (
    format_v (format_v "menu item " (format_v (decimal item.menu_item_id) " not found: "))
      (st.text_of e))

module _ {S Err : Type 0} (st : Status Err) (srv : OrderServer S Err) where
  -- The loop over `req.Items`.
  unfoldable pub add_items : List OrderItem → List OrderItemRequest → Exec S Err (List OrderItem)
  add_items items [] = pure items
  add_items items (item ∷ rest) = do
    resp ←
        on_error (srv.menu_client.get_menu_item (record { id = item.menu_item_id }))
          (menu_item_error st item)
    menu_item ← deref resp.menu_item
    add_items (items ++ new_order_item item menu_item.price ∷ []) rest

  module _ (db : Table S Order) (rfc3339 : Time → String) where
    unfoldable pub create_order : Rpc S Err CreateOrderRequest CreateOrderResponse
    create_order req = do
      on_error (srv.user_client.get_user (record { id = req.user_id }))
          (λ e. st.errorf invalid_argument (format_v "user not found: " (st.text_of e)))
      items ← add_items [] req.items
      created ← call (db.create (pending_order req.user_id items))
      order ←
          or_raise created
            (λ e. st.errorf internal (format_v "failed to create order: " (db.error_text e)))
      pure (record { order = some (model_to_proto rfc3339 order) })

    unfoldable pub get_orders : Rpc S Err GetOrdersRequest GetOrdersResponse
    get_orders req = do
      found ← query (db.find ("OrderItems" ∷ []))
      orders ←
          or_raise found
            (λ e. st.errorf internal (format_v "failed to get orders: " (db.error_text e)))
      pure (record { orders = map (model_to_proto rfc3339) orders })

    unfoldable pub get_order : Rpc S Err GetOrderRequest GetOrderResponse
    get_order req = do
      found ← query (db.first ("OrderItems" ∷ []) req.id)
      order ← or_raise found (λ e. st.errorf not_found "order not found")
      pure (record { order = some (model_to_proto rfc3339 order) })
