-- ===== src/Gateway/Promise.antt =====
-- What the gateway promises of each endpoint, in terms of one remote call.
use mathlib.Core.List.{◌∷◌, List, [], ◌++◌, append-nil, append_assoc}
use ss2025_web.Base.{sym, map, String, ℕ, ◌≡◌, ◌∙◌, Option, none, some, Result, ok, err}
use ss2025_web.Gateway.{Status, ServiceClients, Json, http_status}
use ss2025_web.Http.Handler.{Conn}
use ss2025_web.Http.{Writer}
use ss2025_web.Base.Decimal.{parse_uint32}
use ss2025_web.Http.Reply.{json_reply, error_reply}
use ss2025_web.Order.{OrderItemRequest}
use ss2025_web.Gateway.Routes.{Endpoint, Request}
use ss2025_web.Gateway.Orders.{ItemBody, item_request, convert_items}

-- The reply to a gRPC error.
abbrev pub grpc_error_reply : {Err : Type 0} → Status Err → Err → Writer Json
grpc_error_reply st e = elim (st.from_error e) [
  | none ↦ error_reply "internal server error" 500
  | some (code, message) ↦ error_reply message (http_status code)
]

-- The reply to the result of a remote call, and the state that the call left.
abbrev pub relay : {S Err A : Type 0} → Status Err → ℕ → (A → Json) → Result Err A × S → Conn S Json
relay st code v (ok a, s) = record { state = s; writer = json_reply code (v a) }
relay st code v (err e, s) = record { state = s; writer = grpc_error_reply st e }

-- A request that the gateway itself turns away.
abbrev pub turn_away : {S : Type 0} → String → S → Conn S Json
turn_away message s = record { state = s; writer = error_reply message 400 }

-- Appending in a loop is `map`.
pub convert_items-map :
    (acc : List OrderItemRequest) (items : List ItemBody)
    → convert_items acc items ≡ acc ++ map item_request items
unfolding convert_items
convert_items-map acc [] = sym (append-nil acc)
convert_items-map acc (i ∷ items) =
    convert_items-map (acc ++ item_request i ∷ []) items
    ∙ append_assoc acc (item_request i ∷ []) (map item_request items)

abbrev pub from_id : {S : Type 0} → Option ℕ → String → (ℕ → S → Conn S Json) → S → Conn S Json
from_id none message k s = turn_away message s
from_id (some n) message k s = k n s

abbrev pub from_body : {S B : Type 0} → Result String B → (B → S → Conn S Json) → S → Conn S Json
from_body (ok b) k s = k b s
from_body (err e) k s = turn_away "invalid request body" s

-- What each endpoint promises: a body or an ID that does not decode is turned away with nothing
-- done, and anything else is one remote call, relayed.
module _ {S Err : Type 0} (st : Status Err) (clients : ServiceClients S Err) where
  abbrev pub promised : Endpoint → Request → S → Conn S Json
  promised Endpoint.create_user r = from_body r.user_body λ b s.
      relay st 201 (λ a. Json.user a.user)
        (clients.user_client.create_user
          (record { name = b.name; email = b.email; is_cafe_owner = b.is_cafe_owner }) s)
  promised Endpoint.get_user r = from_id (parse_uint32 r.id) "invalid user ID" λ n s.
      relay st 200 (λ a. Json.user a.user) (clients.user_client.get_user (record { id = n }) s)
  promised Endpoint.get_users r =
      λ s. relay st 200 (λ a. Json.users a.users) (clients.user_client.get_users (record {}) s)
  promised Endpoint.create_menu_item r = from_body r.item_body λ b s.
      relay st 201 (λ a. Json.menu_item a.menu_item)
        (clients.menu_client.create_menu_item
          (record { name = b.name; description = b.description; price = b.price }) s)
  promised Endpoint.get_menu_item r = from_id (parse_uint32 r.id) "invalid menu item ID" λ n s.
      relay st 200 (λ a. Json.menu_item a.menu_item)
        (clients.menu_client.get_menu_item (record { id = n }) s)
  promised Endpoint.get_menu r = λ s.
      relay st 200 (λ a. Json.menu_items a.menu_items) (clients.menu_client.get_menu (record {}) s)
  promised Endpoint.create_order r = from_body r.order_body λ b s.
      relay st 201 (λ a. Json.order a.order)
        (clients.order_client.create_order
          (record { user_id = b.user_id; items = map item_request b.items }) s)
  promised Endpoint.get_order r = from_id (parse_uint32 r.id) "invalid order ID" λ n s.
      relay st 200 (λ a. Json.order a.order) (clients.order_client.get_order (record { id = n }) s)
  promised Endpoint.get_orders r =
      λ s. relay st 200 (λ a. Json.orders a.orders) (clients.order_client.get_orders (record {}) s)
