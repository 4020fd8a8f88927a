-- ===== src/Tests/Starts.antt =====
-- The programs of practical6-example, started with an empty environment.
use Prim.Native.String.{String}
use ss2025_web.Base.{◌≡◌, refl, [], ◌∷◌, map, ok, format_v}
use ss2025_web.Base.Decimal.{decimal}
use ss2025_web.Startup.{Env, get_env, Outside, connect}
use ss2025_web.Startup.Clients.{Targets, new_clients, new_order_server, new_service_clients}
use ss2025_web.Startup.Services.{
  Service, OrderService, Gateway, user_main, menu_main, order_main, gateway_main,
}
use ss2025_web.Startup.Rest as Rest
use ss2025_web.Startup.Proxies.{proxies_agree}
use ss2025_web.Rest.Orders.{user_url, menu_url}
use ss2025_web.Startup.Wiring.{new_clients-order_main, defaults_agree}

abbrev empty : Env
empty key = ""

-- An operating system, a database and a grpc package that refuse nothing.
abbrev willing : Outside String
willing = record {
  open_db = λ dsn. ok dsn;
  auto_migrate = λ models db. ok tt;
  listen = λ address. ok tt;
  new_client = λ address. ok tt;
}

abbrev targets : Targets
targets = record { user_addr = "user-service:9091"; menu_addr = "menu-service:9092" }

abbrev users : Service
users = record { address = ":9091" }

abbrev menu : Service
menu = record { address = ":9092" }

abbrev orders : OrderService
orders = record { address = ":9093"; targets = targets }

abbrev gateway : Gateway
gateway = record {
  address = ":8080";
  targets = record {
    user_addr = "user-service:9091";
    menu_addr = "menu-service:9092";
    order_addr = "order-service:9093";
  };
}

users_start : user_main willing empty ≡ ok users
unfolding user_main connect get_env format_v
users_start = refl

menu_starts : menu_main willing empty ≡ ok menu
unfolding menu_main connect get_env format_v
menu_starts = refl

orders_start : order_main willing empty ≡ ok orders
unfolding order_main connect get_env format_v new_order_server
orders_start = refl

gateway_starts : gateway_main willing empty ≡ ok gateway
unfolding gateway_main get_env new_service_clients
gateway_starts = refl

defaults_agree_example :
    (gateway.targets ≡ record {
      user_addr = format_v "user-service" users.address;
      menu_addr = format_v "menu-service" menu.address;
      order_addr = format_v "order-service" orders.address;
    })
    × (orders.targets ≡ record {
      user_addr = format_v "user-service" users.address;
      menu_addr = format_v "menu-service" menu.address;
    })
defaults_agree_example =
    defaults_agree willing empty empty empty empty users menu orders gateway refl refl refl refl
      refl refl refl refl users_start menu_starts orders_start gateway_starts

new_clients-order_main_example : new_clients willing empty ≡ ok targets
new_clients-order_main_example = new_clients-order_main willing empty orders orders_start

rest_users_start : Rest.user_main willing empty ≡ ok (record { address = ":8081" })
unfolding Rest.user_main connect get_env format_v
rest_users_start = refl

rest_menu_starts : Rest.menu_main willing empty ≡ ok (record { address = ":8082" })
unfolding Rest.menu_main connect get_env format_v
rest_menu_starts = refl

rest_orders_start : Rest.order_main willing empty ≡ ok (record { address = ":8083" })
unfolding Rest.order_main connect get_env format_v
rest_orders_start = refl

-- A GET of `/api/users/7` at the gateway.
proxies_agree_example :
    (map (λ p. Rest.proxy_to p "/api/users/7") Rest.proxies
      ≡ ("http://user-service:8081", "/users/7")
        ∷ ("http://menu-service:8082", "/users/7")
        ∷ ("http://order-service:8083", "/users/7")
        ∷ [])
    × (user_url 7
        ≡ format_v (format_v (format_v "http://user-service" ":8081") "/users/") (decimal 7))
    × (menu_url 7
        ≡ format_v (format_v (format_v "http://menu-service" ":8082") "/menu/") (decimal 7))
unfolding format_v
proxies_agree_example =
    proxies_agree willing empty empty empty (record { address = ":8081" })
      (record { address = ":8082" }) (record { address = ":8083" }) "/users/7" 7 refl refl refl
      rest_users_start rest_menu_starts rest_orders_start
