-- ===== src/Practical5a/Starts.antt =====
-- The `main` functions, database/db.go and the gRPC clients of the services of practicals/practical5a.
use Prim.Native.String.{String}
use ss2025_web.Startup.{Env, Outside, Start}
use ss2025_web.Startup.Clients as Clients
use ss2025_web.Startup.Clients.{Targets}
use ss2025_web.Startup.Services as Services
use ss2025_web.Startup.Services.{Service, OrderService}

module _ {Db : Type 0} (out : Outside Db) where
  abbrev pub connect_users : String → Start Db
  connect_users = Services.connect_users out

  abbrev pub connect_menu : String → Start Db
  connect_menu = Services.connect_menu out

  abbrev pub connect_orders : String → Start Db
  connect_orders = Services.connect_orders out

  abbrev pub new_clients : Env → Start Targets
  new_clients = Clients.new_clients out

  abbrev pub new_order_server : String → String → Start Targets
  new_order_server = Clients.new_order_server out

  abbrev pub user_main : Env → Start Service
  user_main = Services.user_main out

  abbrev pub menu_main : Env → Start Service
  menu_main = Services.menu_main out

  abbrev pub order_main : Env → Start OrderService
  order_main = Services.order_main out
