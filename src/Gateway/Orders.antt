-- ===== src/Gateway/Orders.antt =====
-- api-gateway/handlers/order_handlers.go
use Prim.Native.String.{String}
use ss2025_web.Base.Decimal.{parse_uint32}
use ss2025_web.Base.Word.{to_u32, as_i32}
use ss2025_web.Base.{ℕ, Bool, List, [], ◌∷◌, ◌++◌, Result}
use ss2025_web.Rpc.{Status}
use ss2025_web.Http.{status_bad_request, status_created}
use ss2025_web.Http.Handler.{Handler, fail, or_fail, or_none, call, respond, set_json, ◌>>=◌, ◌>>◌}
use ss2025_web.Gateway.{ServiceClients, Json, handle_grpc_error}
use ss2025_web.Order.{OrderItemRequest}
use ss2025_web.Http.{write_header, encode}

-- The anonymous structs that the body is decoded into.
pub record ItemBody : Type 0 where
  pub menu_item_id : ℕ
  pub quantity : ℕ

pub record OrderBody : Type 0 where
  pub user_id : ℕ
  pub items : List ItemBody

-- The body of the loop that converts the items: `int32(item.Quantity)` may turn negative.
abbrev pub item_request : ItemBody → OrderItemRequest
item_request item = record { menu_item_id = item.menu_item_id; quantity = as_i32 item.quantity }

-- The loop, which appends to a slice.
unfoldable pub convert_items : List OrderItemRequest → List ItemBody → List OrderItemRequest
convert_items items [] = items
convert_items items (item ∷ rest) = convert_items (items ++ item_request item ∷ []) rest

module _ {S Err : Type 0} (st : Status Err) (clients : ServiceClients S Err)
    (marshals : Json → Bool) where
  unfoldable pub create_order : Result String OrderBody → Handler S Json (Unit {0})
  unfolding convert_items
  create_order body = do
    req ← or_fail body (λ _. fail "invalid request body" status_bad_request)
    answer ← call (
        clients.order_client.create_order
          (record { user_id = req.user_id; items = convert_items [] req.items }))
    resp ← or_fail answer (handle_grpc_error st)
    set_json
    respond (write_header status_created)
    respond (encode marshals (Json.order resp.order))

  -- The parameter is the part `{id}` of the path.
  unfoldable pub get_order : String → Handler S Json (Unit {0})
  get_order id_str = do
    id ← or_none (parse_uint32 id_str) (fail "invalid order ID" status_bad_request)
    answer ← call (clients.order_client.get_order (record { id = to_u32 id }))
    resp ← or_fail answer (handle_grpc_error st)
    set_json
    respond (encode marshals (Json.order resp.order))

  unfoldable pub get_orders : Handler S Json (Unit {0})
  get_orders = do
    answer ← call (clients.order_client.get_orders (record {}))
    resp ← or_fail answer (handle_grpc_error st)
    set_json
    respond (encode marshals (Json.orders resp.orders))
