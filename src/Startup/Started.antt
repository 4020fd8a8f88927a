-- ===== src/Startup/Started.antt =====
-- What a program has done once it has started.
use Prim.Native.String.{String}
use ss2025_web.Base.{◌≡◌, refl, inl, inr, [], ◌∷◌, Result, ok, err, format_v, arith, Result-cases}
use ss2025_web.Startup.{Env, get_env, Outside, connect, or_else, ◌>>◌}
use ss2025_web.Startup.Clients.{Targets, new_order_server}
use ss2025_web.Startup.Services.{Service, OrderService, order_main}

pub get_env_unset :
    (env : Env) (key default_val : String)
    → env key ≡ ""
    → get_env env key default_val ≡ default_val
unfolding get_env
get_env_unset env key default_val h = rw h refl

pub serves :
    {A B : Type 0} (a : Result String A) (l : Result String B) (f g : String → String)
    (address : String) (u : Service)
    → (or_else a f >> (or_else l g >> ok (record { address = address }))) ≡ ok u
    → u.address ≡ address
serves (ok a) (ok l) f g address u h = ground arith
serves (ok a) (err m) f g address u h = absurd (ground arith)
serves (err m) l f g address u h = absurd (ground arith)

module _ {Db : Type 0} (out : Outside Db) where
  pub new_order_server-ok :
      (user_addr menu_addr : String) (t : Targets)
      → new_order_server out user_addr menu_addr ≡ ok t
      → (out.new_client user_addr ≡ ok tt)
        × (out.new_client menu_addr ≡ ok tt)
        × (t ≡ record { user_addr = user_addr; menu_addr = menu_addr })
  unfolding new_order_server
  new_order_server-ok user_addr menu_addr t h = elim (Result-cases (out.new_client user_addr)) [
    | inl (_, e) ↦ elim (Result-cases (out.new_client menu_addr)) [
      | inl (_, k) ↦ (ground arith, ground arith, ground arith)
      | inr (m, k) ↦ absurd (ground arith)
    ]
    | inr (m, e) ↦ absurd (ground arith)
  ]

  pub order_main-ok :
      (env : Env) (o : OrderService)
      → order_main out env ≡ ok o
      → (db : Db) × (t : Targets) × (connect out ("Order" ∷ "OrderItem" ∷ []) (
            get_env env "DATABASE_URL"
              "host=localhost user=postgres password=postgres dbname=order_db port=5432 sslmode=disable")
          ≡ ok db)
        × (out.listen (format_v ":" (get_env env "GRPC_PORT" "9093")) ≡ ok tt)
        × (new_order_server out
              (get_env env "USER_SERVICE_GRPC_ADDR" "user-service:9091")
              (get_env env "MENU_SERVICE_GRPC_ADDR" "menu-service:9092")
            ≡ ok t)
        × (o ≡ record { address = format_v ":" (get_env env "GRPC_PORT" "9093"); targets = t })
  unfolding order_main
  order_main-ok env o h =
      let dsn =
        get_env env "DATABASE_URL"
          "host=localhost user=postgres password=postgres dbname=order_db port=5432 sslmode=disable" in
      elim (Result-cases (connect out ("Order" ∷ "OrderItem" ∷ []) dsn)) [
        | inl (db, c) ↦
            elim (Result-cases (out.listen (format_v ":" (get_env env "GRPC_PORT" "9093")))) [
              | inl (_, l) ↦
                  elim (Result-cases (
                    new_order_server out (get_env env "USER_SERVICE_GRPC_ADDR" "user-service:9091")
                      (get_env env "MENU_SERVICE_GRPC_ADDR" "menu-service:9092"))) [
                        | inl (t, n) ↦ (db, t, c, ground arith, n, ground arith)
                        | inr (m, n) ↦ absurd (ground arith)
                      ]
              | inr (m, l) ↦ absurd (ground arith)
            ]
        | inr (m, c) ↦ absurd (ground arith)
      ]
