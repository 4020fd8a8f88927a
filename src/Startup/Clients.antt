-- ===== src/Startup/Clients.antt =====
-- The gRPC clients: api-gateway/grpc/clients.go, order-service/grpc/clients.go and `NewOrderServer`
-- of order-service/grpc/server.go.
use Prim.Native.String.{String}
use ss2025_web.Base.{ok, format_v}
use ss2025_web.Startup.{Env, get_env, Outside, Start, or_else, ◌>>◌}

-- The addresses that the clients of a `ServiceClients` dial.
pub record ServiceTargets : Type 0 where
  pub user_addr : String
  pub menu_addr : String
  pub order_addr : String

-- The addresses that the clients of an order server dial.
pub record Targets : Type 0 where
  pub user_addr : String
  pub menu_addr : String

module _ {Db : Type 0} (out : Outside Db) where
  unfoldable pub new_service_clients : Env → Start ServiceTargets
  new_service_clients env =
      let user_addr = get_env env "USER_SERVICE_GRPC_ADDR" "user-service:9091" in
      let menu_addr = get_env env "MENU_SERVICE_GRPC_ADDR" "menu-service:9092" in
      let order_addr = get_env env "ORDER_SERVICE_GRPC_ADDR" "order-service:9093" in
      do
        or_else (out.new_client user_addr) (format_v "failed to connect to user service: ")
        or_else (out.new_client menu_addr) (format_v "failed to connect to menu service: ")
        or_else (out.new_client order_addr) (format_v "failed to connect to order service: ")
        ok (record { user_addr = user_addr; menu_addr = menu_addr; order_addr = order_addr })

  unfoldable pub new_clients : Env → Start Targets
  new_clients env =
      let user_addr = get_env env "USER_SERVICE_GRPC_ADDR" "user-service:9091" in
      let menu_addr = get_env env "MENU_SERVICE_GRPC_ADDR" "menu-service:9092" in
      do
        or_else (out.new_client user_addr) (λ e.
            format_v "failed to connect to user service at " (format_v user_addr (format_v ": " e)))
        or_else (out.new_client menu_addr) (λ e.
            format_v "failed to connect to menu service at " (format_v menu_addr (format_v ": " e)))
        ok (record { user_addr = user_addr; menu_addr = menu_addr })

  unfoldable pub new_order_server : String → String → Start Targets
  new_order_server user_addr menu_addr = do
    or_else (out.new_client user_addr) (format_v "failed to connect to user service: ")
    or_else (out.new_client menu_addr) (format_v "failed to connect to menu service: ")
    ok (record { user_addr = user_addr; menu_addr = menu_addr })
