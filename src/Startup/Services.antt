-- ===== src/Startup/Services.antt =====
-- The `main` functions of practical6-example.
use Prim.Native.String.{String}
use ss2025_web.Base.{[], ◌∷◌, ok, format_v}
use ss2025_web.Startup.{Env, get_env, Outside, Start, connect, or_else, ◌>>=◌, ◌>>◌}
use ss2025_web.Startup.Clients.{ServiceTargets, Targets, new_service_clients, new_order_server}

-- A gRPC service that listens.
pub record Service : Type 0 where
  pub address : String

-- The order service, with the services that it calls.
pub record OrderService : Type 0 where
  pub address : String
  pub targets : Targets

-- The gateway, with the services that it calls.
pub record Gateway : Type 0 where
  pub address : String
  pub targets : ServiceTargets

-- `log.Fatalf("Failed to listen on gRPC port %s: %v", …)`
abbrev listen_error : String → String → String
listen_error port e = format_v "Failed to listen on gRPC port " (format_v port (format_v ": " e))

-- `Connect` of the user service.
abbrev pub connect_users : {Db : Type 0} → Outside Db → String → Start Db
connect_users out = connect out ("User" ∷ [])

-- `Connect` of the menu service.
abbrev pub connect_menu : {Db : Type 0} → Outside Db → String → Start Db
connect_menu out = connect out ("MenuItem" ∷ [])

-- `Connect` of the order service.
abbrev pub connect_orders : {Db : Type 0} → Outside Db → String → Start Db
connect_orders out = connect out ("Order" ∷ "OrderItem" ∷ [])

module _ {Db : Type 0} (out : Outside Db) where
  unfoldable pub user_main : Env → Start Service
  user_main env =
      let dsn =
        get_env env "DATABASE_URL"
          "host=localhost user=postgres password=postgres dbname=user_db port=5432 sslmode=disable" in
      let grpc_port = get_env env "GRPC_PORT" "9091" in
      do
        or_else (connect_users out dsn) (format_v "Failed to connect to database: ")
        or_else (out.listen (format_v ":" grpc_port)) (listen_error grpc_port)
        ok (record { address = format_v ":" grpc_port })

  unfoldable pub menu_main : Env → Start Service
  menu_main env =
      let dsn =
        get_env env "DATABASE_URL"
          "host=localhost user=postgres password=postgres dbname=menu_db port=5432 sslmode=disable" in
      let grpc_port = get_env env "GRPC_PORT" "9092" in
      do
        or_else (connect_menu out dsn) (format_v "Failed to connect to database: ")
        or_else (out.listen (format_v ":" grpc_port)) (listen_error grpc_port)
        ok (record { address = format_v ":" grpc_port })

  unfoldable pub order_main : Env → Start OrderService
  order_main env =
      let dsn =
        get_env env "DATABASE_URL"
          "host=localhost user=postgres password=postgres dbname=order_db port=5432 sslmode=disable" in
      let grpc_port = get_env env "GRPC_PORT" "9093" in
      let user_addr = get_env env "USER_SERVICE_GRPC_ADDR" "user-service:9091" in
      let menu_addr = get_env env "MENU_SERVICE_GRPC_ADDR" "menu-service:9092" in
      do
        or_else (connect_orders out dsn) (format_v "Failed to connect to database: ")
        or_else (out.listen (format_v ":" grpc_port)) (listen_error grpc_port)
        targets ←
            or_else (new_order_server out user_addr menu_addr)
              (format_v "Failed to create gRPC order server: ")
        ok (record { address = format_v ":" grpc_port; targets = targets })

  unfoldable pub gateway_main : Env → Start Gateway
  gateway_main env = do
    clients ← or_else (new_service_clients out env) (format_v "Failed to create gRPC clients: ")
    or_else (out.listen ":8080") (format_v "Failed to start server: ")
    ok (record { address = ":8080"; targets = clients })
