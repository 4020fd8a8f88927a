-- ===== src/Startup/Wiring.antt =====
-- The addresses of the programs and of their clients.
use ss2025_web.Base.{◌≡◌, refl, ap, ◌∙◌, inl, inr, [], ◌∷◌, ok, format_v, arith, Result-cases}
use ss2025_web.Startup.{Env, get_env, Outside, connect}
use ss2025_web.Startup.Clients.{ServiceTargets, new_service_clients, new_clients}
use ss2025_web.Startup.Services.{
  Service, OrderService, Gateway, user_main, menu_main, order_main, gateway_main,
}
use ss2025_web.Startup.Started.{get_env_unset, serves, new_order_server-ok, order_main-ok}

module _ {Db : Type 0} (out : Outside Db) where
  user_main-ok :
      (env : Env) (u : Service)
      → user_main out env ≡ ok u
      → u.address ≡ format_v ":" (get_env env "GRPC_PORT" "9091")
  unfolding user_main
  user_main-ok env u h =
      serves (connect out ("User" ∷ []) _)
        (out.listen (format_v ":" (get_env env "GRPC_PORT" "9091"))) _ _ _ u h

  menu_main-ok :
      (env : Env) (m : Service)
      → menu_main out env ≡ ok m
      → m.address ≡ format_v ":" (get_env env "GRPC_PORT" "9092")
  unfolding menu_main
  menu_main-ok env m h =
      serves (connect out ("MenuItem" ∷ []) _)
        (out.listen (format_v ":" (get_env env "GRPC_PORT" "9092"))) _ _ _ m h

  -- Where both clients can be made, `NewClients` gives those of `NewOrderServer` at the addresses that
  -- it reads.
  new_clients-dialled :
      (env : Env)
      → out.new_client (get_env env "USER_SERVICE_GRPC_ADDR" "user-service:9091") ≡ ok tt
      → out.new_client (get_env env "MENU_SERVICE_GRPC_ADDR" "menu-service:9092") ≡ ok tt
      → new_clients out env
        ≡ ok (record {
          user_addr = get_env env "USER_SERVICE_GRPC_ADDR" "user-service:9091";
          menu_addr = get_env env "MENU_SERVICE_GRPC_ADDR" "menu-service:9092";
        })
  unfolding new_clients
  new_clients-dialled env users menu = ground arith

  -- In the environment of an order service that starts, NewClients, which makes the clients of the
  -- REST handlers, succeeds too, and they dial the addresses that the clients of the gRPC server of
  -- that service dial.
  pub new_clients-order_main :
      (env : Env) (o : OrderService)
      → order_main out env ≡ ok o
      → new_clients out env ≡ ok o.targets
  new_clients-order_main env o h =
      let (db, t, made, listening, dialled, made_o) = order_main-ok out env o h in
      let (users, menu, is_t) = new_order_server-ok out _ _ t dialled in
      rw (made_o, is_t) (new_clients-dialled env users menu)

  new_service_clients-ok :
      (env : Env) (t : ServiceTargets)
      → new_service_clients out env ≡ ok t
      → t ≡ record {
        user_addr = get_env env "USER_SERVICE_GRPC_ADDR" "user-service:9091";
        menu_addr = get_env env "MENU_SERVICE_GRPC_ADDR" "menu-service:9092";
        order_addr = get_env env "ORDER_SERVICE_GRPC_ADDR" "order-service:9093";
      }
  unfolding new_service_clients
  new_service_clients-ok env t h =
      elim (Result-cases
        (out.new_client (get_env env "USER_SERVICE_GRPC_ADDR" "user-service:9091"))) [
          | inl (_, e) ↦
              elim (Result-cases
                (out.new_client (get_env env "MENU_SERVICE_GRPC_ADDR" "menu-service:9092"))) [
                  | inl (_, k) ↦
                      elim (Result-cases (
                        out.new_client
                          (get_env env "ORDER_SERVICE_GRPC_ADDR" "order-service:9093"))) [
                            | inl (_, l) ↦ ground arith
                            | inr (m, l) ↦ absurd (ground arith)
                          ]
                  | inr (m, k) ↦ absurd (ground arith)
                ]
          | inr (m, e) ↦ absurd (ground arith)
        ]

  gateway_main-ok :
      (env : Env) (g : Gateway)
      → gateway_main out env ≡ ok g
      → new_service_clients out env ≡ ok g.targets
  unfolding gateway_main
  gateway_main-ok env g h = elim (Result-cases (new_service_clients out env)) [
    | inl (t, e) ↦ elim (Result-cases (out.listen ":8080")) [
      | inl (_, k) ↦ ground arith
      | inr (m, k) ↦ absurd (ground arith)
    ]
    | inr (m, e) ↦ absurd (ground arith)
  ]

  -- Where no port and no service address is configured and the four programs start, the gateway
  -- and the order service dial the ports that the services listen on.
  pub defaults_agree :
      (ue me oe ge : Env) (u m : Service) (o : OrderService) (g : Gateway)
      (user_port : ue "GRPC_PORT" ≡ "") (menu_port : me "GRPC_PORT" ≡ "")
      (order_port : oe "GRPC_PORT" ≡ "") (order_users : oe "USER_SERVICE_GRPC_ADDR" ≡ "")
      (order_menu : oe "MENU_SERVICE_GRPC_ADDR" ≡ "")
      (gateway_users : ge "USER_SERVICE_GRPC_ADDR" ≡ "")
      (gateway_menu : ge "MENU_SERVICE_GRPC_ADDR" ≡ "")
      (gateway_orders : ge "ORDER_SERVICE_GRPC_ADDR" ≡ "")
      → user_main out ue ≡ ok u
      → menu_main out me ≡ ok m
      → order_main out oe ≡ ok o
      → gateway_main out ge ≡ ok g
      → (g.targets ≡ record {
        user_addr = format_v "user-service" u.address;
        menu_addr = format_v "menu-service" m.address;
        order_addr = format_v "order-service" o.address;
      })
        × (o.targets ≡ record {
          user_addr = format_v "user-service" u.address;
          menu_addr = format_v "menu-service" m.address;
        })
  defaults_agree ue me oe ge u m o g user_port menu_port order_port order_users order_menu
        gateway_users gateway_menu gateway_orders hu hm ho hg =
      let at_user = user_main-ok ue u hu ∙ ap (format_v ":") (get_env_unset ue _ _ user_port) in
      let at_menu = menu_main-ok me m hm ∙ ap (format_v ":") (get_env_unset me _ _ menu_port) in
      let (db, t, made, listening, dialled, made_o) = order_main-ok out oe o ho in
      let (users, menu, is_t) = new_order_server-ok out _ _ t dialled in
      let at_order =
        ap (λ x. x.address) made_o ∙ ap (format_v ":") (get_env_unset oe _ _ order_port) in
      let targets = new_service_clients-ok ge g.targets (gateway_main-ok ge g hg) in
      (
        rw
            (
              targets,
              get_env_unset ge _ _ gateway_users,
              get_env_unset ge _ _ gateway_menu,
              get_env_unset ge _ _ gateway_orders,
              at_user,
              at_menu,
              at_order,
            )
            (unfold format_v in refl),
        rw
            (
              made_o,
              is_t,
              get_env_unset oe _ _ order_users,
              get_env_unset oe _ _ order_menu,
              at_user,
              at_menu,
            )
            (unfold format_v in refl),
      )
