-- ===== src/Startup/Rest.antt =====
-- The `main` functions of practical5: the monolith, the three services, and the gateway that proxies
-- to them. The error of ListenAndServe is ignored there.
use Prim.Native.String.{String}
use ss2025_web.Base.{List, [], ◌∷◌, ok, format_v}
use ss2025_web.Base.Paths.{trim_prefix}
use ss2025_web.Startup.{Env, get_env, Outside, Start, connect, or_else, ◌>>◌}

-- The address given to ListenAndServe.
pub record Server : Type 0 where
  pub address : String

-- `Connect` of the monolith.
abbrev pub connect_monolith : {Db : Type 0} → Outside Db → String → Start Db
connect_monolith out = connect out ("User" ∷ "MenuItem" ∷ "Order" ∷ "OrderItem" ∷ [])

-- `Connect` of the user service.
abbrev pub connect_users : {Db : Type 0} → Outside Db → String → Start Db
connect_users out = connect out ("User" ∷ [])

-- `Connect` of the menu service.
abbrev pub connect_menu : {Db : Type 0} → Outside Db → String → Start Db
connect_menu out = connect out ("MenuItem" ∷ [])

-- `Connect` of the order service.
abbrev pub connect_orders : {Db : Type 0} → Outside Db → String → Start Db
connect_orders out = connect out ("Order" ∷ "OrderItem" ∷ [])

module _ {Db : Type 0} (out : Outside Db) where
  unfoldable pub monolith_main : Env → Start Server
  monolith_main env =
      let dsn =
        get_env env "DATABASE_URL"
          "host=localhost user=postgres password=postgres dbname=student_cafe port=5432 sslmode=disable" in
      do
        or_else (connect_monolith out dsn) (format_v "Failed to connect to database: ")
        ok (record { address = ":8080" })

  unfoldable pub user_main : Env → Start Server
  user_main env =
      let dsn =
        get_env env "DATABASE_URL"
          "host=localhost user=postgres password=postgres dbname=user_db port=5432 sslmode=disable" in
      let port = get_env env "PORT" "8081" in
      do
        or_else (connect_users out dsn) (format_v "Failed to connect to database: ")
        ok (record { address = format_v ":" port })

  unfoldable pub menu_main : Env → Start Server
  menu_main env =
      let dsn =
        get_env env "DATABASE_URL"
          "host=localhost user=postgres password=postgres dbname=menu_db port=5432 sslmode=disable" in
      let port = get_env env "PORT" "8082" in
      do
        or_else (connect_menu out dsn) (format_v "Failed to connect to database: ")
        ok (record { address = format_v ":" port })

  unfoldable pub order_main : Env → Start Server
  order_main env =
      let dsn =
        get_env env "DATABASE_URL"
          "host=localhost user=postgres password=postgres dbname=order_db port=5432 sslmode=disable" in
      let port = get_env env "PORT" "8083" in
      do
        or_else (connect_orders out dsn) (format_v "Failed to connect to database: ")
        ok (record { address = format_v ":" port })

-- A pattern of the practical5 gateway and the service behind it.
pub record Proxy : Type 0 where
  pub pattern : String
  pub target : String

abbrev proxy : String → String → Proxy
proxy p t = record { pattern = p; target = t }

abbrev pub proxies : List Proxy
proxies =
    proxy "/api/users*" "http://user-service:8081"
    ∷ proxy "/api/menu*" "http://menu-service:8082"
    ∷ proxy "/api/orders*" "http://order-service:8083"
    ∷ []

-- The handler of `proxyTo`: the target, and the path that it is asked for.
unfoldable pub proxy_to : Proxy → String → String × String
proxy_to p path = (p.target, trim_prefix path "/api")

-- The gateway that listens.
pub record Proxying : Type 0 where
  pub address : String
  pub handled : List Proxy

-- `main` of the gateway, which asks nothing of its environment.
abbrev pub gateway_main : Start Proxying
gateway_main = ok (record { address = ":8080"; handled = proxies })
