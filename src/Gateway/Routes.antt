-- ===== src/Gateway/Routes.antt =====
-- api-gateway/main.go: the routing table, and the handler that stands behind each route. Which route
-- a request takes is decided by the router, which is not part of the repository.
use Prim.Native.String.{String}
use ss2025_web.Base.{Bool, List, [], ◌∷◌, Result}
use ss2025_web.Rpc.{Status}
use ss2025_web.Http.Handler.{Handler}
use ss2025_web.Gateway.{ServiceClients, Json}
use ss2025_web.Gateway.Users
use ss2025_web.Gateway.Users.{UserBody}
use ss2025_web.Gateway.Items
use ss2025_web.Gateway.Items.{MenuItemBody}
use ss2025_web.Gateway.Orders
use ss2025_web.Gateway.Orders.{OrderBody}

pub data Endpoint : Type 0 where
  create_user get_user get_users create_menu_item get_menu_item get_menu : Endpoint
  create_order get_order get_orders : Endpoint

pub data Method : Type 0 where
  get post : Method

pub record Route : Type 0 where
  pub method : Method
  pub pattern : String
  pub endpoint : Endpoint

abbrev route : Method → String → Endpoint → Route
route m p e = record { method = m; pattern = p; endpoint = e }

-- The calls `r.Post` and `r.Get` of `main`.
abbrev pub routes : List Route
routes =
    route post "/api/users" create_user
    ∷ route get "/api/users/{id}" get_user
    ∷ route get "/api/users" get_users
    ∷ route post "/api/menu" create_menu_item
    ∷ route get "/api/menu/{id}" get_menu_item
    ∷ route get "/api/menu" get_menu
    ∷ route post "/api/orders" create_order
    ∷ route get "/api/orders/{id}" get_order
    ∷ route get "/api/orders" get_orders
    ∷ []

-- A request as the handlers read it: the URL parameter `id`, and what decoding the body into the
-- handler's struct gives.
pub record Request : Type 0 where
  pub id : String
  pub user_body : Result String UserBody
  pub item_body : Result String MenuItemBody
  pub order_body : Result String OrderBody

unfoldable pub handle :
    {S Err : Type 0}
    → Status Err
    → ServiceClients S Err
    → (Json → Bool)
    → Endpoint
    → Request
    → Handler S Json (Unit {0})
handle st clients marshals create_user r = Users.create_user st clients marshals r.user_body
handle st clients marshals get_user r = Users.get_user st clients marshals r.id
handle st clients marshals get_users r = Users.get_users st clients marshals
handle st clients marshals create_menu_item r =
    Items.create_menu_item st clients marshals r.item_body
handle st clients marshals get_menu_item r = Items.get_menu_item st clients marshals r.id
handle st clients marshals get_menu r = Items.get_menu st clients marshals
handle st clients marshals create_order r = Orders.create_order st clients marshals r.order_body
handle st clients marshals get_order r = Orders.get_order st clients marshals r.id
handle st clients marshals get_orders r = Orders.get_orders st clients marshals
