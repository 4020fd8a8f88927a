-- ===== src/Practical5a/Gateway.antt =====
-- api-gateway of practicals/practical5a, but for CreateOrder, which does not compile: the handlers,
-- the translation of errors, the clients and `main` have the text of practical6-example.
use Prim.Native.String.{String}
use ss2025_web.Base.{ℕ, Bool, Result}
use ss2025_web.Rpc.{Status, Code}
use ss2025_web.Http.Handler.{Handler}
use ss2025_web.Gateway as Gateway
use ss2025_web.Gateway.{ServiceClients, Json}
use ss2025_web.Gateway.Users as Users
use ss2025_web.Gateway.Users.{UserBody}
use ss2025_web.Gateway.Items as Items
use ss2025_web.Gateway.Items.{MenuItemBody}
use ss2025_web.Gateway.Orders as Orders
use ss2025_web.Startup.{Env, Outside, Start}
use ss2025_web.Startup.Clients as Clients
use ss2025_web.Startup.Clients.{ServiceTargets}
use ss2025_web.Startup.Services as Services

abbrev pub http_status : Code → ℕ
http_status = Gateway.http_status

module _ {S Err : Type 0} (st : Status Err) where
  abbrev pub handle_grpc_error : {A : Type 0} → Err → Handler S Json A
  handle_grpc_error = Gateway.handle_grpc_error st

  module _ (clients : ServiceClients S Err) (marshals : Json → Bool) where
    abbrev pub create_user : Result String UserBody → Handler S Json (Unit {0})
    create_user = Users.create_user st clients marshals

    abbrev pub get_user : String → Handler S Json (Unit {0})
    get_user = Users.get_user st clients marshals

    abbrev pub get_users : Handler S Json (Unit {0})
    get_users = Users.get_users st clients marshals

    abbrev pub create_menu_item : Result String MenuItemBody → Handler S Json (Unit {0})
    create_menu_item = Items.create_menu_item st clients marshals

    abbrev pub get_menu_item : String → Handler S Json (Unit {0})
    get_menu_item = Items.get_menu_item st clients marshals

    abbrev pub get_menu : Handler S Json (Unit {0})
    get_menu = Items.get_menu st clients marshals

    abbrev pub get_order : String → Handler S Json (Unit {0})
    get_order = Orders.get_order st clients marshals

    abbrev pub get_orders : Handler S Json (Unit {0})
    get_orders = Orders.get_orders st clients marshals

module _ {Db : Type 0} (out : Outside Db) where
  abbrev pub new_service_clients : Env → Start ServiceTargets
  new_service_clients = Clients.new_service_clients out

  abbrev pub gateway_main : Env → Start Services.Gateway
  gateway_main = Services.gateway_main out
