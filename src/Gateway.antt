-- ===== src/Gateway.antt =====
-- api-gateway of practical6-example: HTTP in front, gRPC behind. Here are the clients, the JSON values
-- that the handlers write, and the translation of gRPC errors; the handlers are in the modules below.
pub mod Users
pub mod Items
pub mod Orders
pub mod Routes
pub mod Codes
pub mod Replies
pub mod Relay
pub mod Promise
pub mod Requests
pub mod Seen
use Prim.Native.String.{String}
use ss2025_web.Base.{ℕ, Option, none, some, List}
use ss2025_web.Rpc
use ss2025_web.Rpc.{
  Status, Code, not_found, invalid_argument, already_exists, permission_denied, unauthenticated,
  failed_precondition, unimplemented, unavailable,
}
use ss2025_web.Http.{
  status_not_found, status_bad_request, status_conflict, status_forbidden, status_unauthorized,
  status_precondition_failed, status_not_implemented, status_service_unavailable,
  status_internal_server_error,
}
use ss2025_web.Http.Handler.{Handler, fail}
use ss2025_web.User.{UserMessage}
use ss2025_web.Menu.{MenuItemMessage}
use ss2025_web.Order.{OrderMessage}
use ss2025_web.Clients.{UserClient, MenuClient, OrderClient}

-- `ServiceClients` of grpc/clients.go, and the struct `Handlers` that holds it.
pub record ServiceClients (S Err : Type 0) : Type 0 where
  pub user_client : UserClient S Err
  pub menu_client : MenuClient S Err
  pub order_client : OrderClient S Err

-- The values given to the JSON encoder; a nil pointer is `none`.
pub data Json : Type 0 where
  user : Option UserMessage → Json
  users : List UserMessage → Json
  menu_item : Option MenuItemMessage → Json
  menu_items : List MenuItemMessage → Json
  order : Option OrderMessage → Json
  orders : List OrderMessage → Json

-- The `switch` of `handleGRPCError`.
abbrev pub http_status : Code → ℕ
http_status not_found = status_not_found
http_status invalid_argument = status_bad_request
http_status already_exists = status_conflict
http_status permission_denied = status_forbidden
http_status unauthenticated = status_unauthorized
http_status failed_precondition = status_precondition_failed
http_status unimplemented = status_not_implemented
http_status unavailable = status_service_unavailable
http_status _ = status_internal_server_error

-- `handleGRPCError`, and the `return` that follows each call of it.
unfoldable pub handle_grpc_error : {S Err A : Type 0} → Status Err → Err → Handler S Json A
handle_grpc_error st e = elim (st.from_error e) [
  | none ↦ fail "internal server error" status_internal_server_error
  | some (code, message) ↦ fail message (http_status code)
]
