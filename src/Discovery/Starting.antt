-- ===== src/Discovery/Starting.antt =====
-- The `main` functions of practical2 and practical4: in practical2 each service registers with Consul
-- before it listens. Listening is a parameter, with `net/http`'s error as a text.
use Prim.Native.String.{String}
use ss2025_web.Base.{ℕ, ◌≡◌, Result, ok, err, format_v, Result-cases, inl, inr, arith}
use ss2025_web.Base.Decimal.{decimal}
use ss2025_web.Discovery.{Consul}
use ss2025_web.Discovery.Register.{
  registration, register_service, register_cafe, catalog_registration, order_registration,
}

-- `http.ListenAndServe`, which serves until it fails.
abbrev pub Listen : Type 0
Listen = String → Result String (Unit {0})

-- `":%d"`
abbrev port_address : ℕ → String
port_address port = format_v ":" (decimal port)

-- Listens, or ends with a fatal message.
abbrev serving : Listen → ℕ → String → Result String String
serving listen port message = elim (listen (port_address port)) [
  | err e ↦ err (format_v message e)
  | ok _ ↦ ok (port_address port)
]

module _ {S : Type 0} (consul : Consul S) (listen : Listen) where
  -- The address that is served, or the message of `log.Fatalf`; `hostname` is what `os.Hostname`
  -- returns.
  unfoldable pub service_main : String → ℕ → Result String String → S → Result String String × S
  unfolding register_service
  service_main service_name service_port hostname s =
      let (registered, s') = register_service consul service_name service_port hostname s in
      elim registered [
        | err e ↦ (err (format_v "Failed to register service with Consul: " e), s')
        | ok _ ↦ (
          serving listen service_port
              (format_v "Failed to start server for service '" (format_v service_name "': ")),
          s',
        )
      ]

  abbrev pub users_main : Result String String → S → Result String String × S
  users_main = service_main "users-service" 8081

  abbrev pub products_main : Result String String → S → Result String String × S
  products_main = service_main "products-service" 8082

-- The gateway, on `gatewayPort`.
unfoldable pub gateway_main : Listen → Result String String
gateway_main listen = serving listen 8080 "Failed to start API Gateway: "

module _ {S : Type 0} (consul : Consul S) (listen : Listen) where
  -- A service that serves listens on its port, and Consul has taken its registration, which is the
  -- only thing that it did.
  pub service_main_registered :
      (name : String) (port : ℕ) (hostname : Result String String) (s s' : S) (addr : String)
      → service_main consul listen name port hostname s ≡ (ok addr, s')
      → (client : String) × (host : String) × (consul.new_client consul.default_address ≡ ok client)
        × (hostname ≡ ok host)
        × (consul.register client (registration name port host) s ≡ (ok tt, s'))
        × (listen (port_address port) ≡ ok tt)
        × (addr ≡ port_address port)
  unfolding service_main register_service
  service_main_registered name port hostname s s' addr h =
      elim (Result-cases (consul.new_client consul.default_address)) [
        | inl (client, c) ↦ elim (Result-cases hostname) [
          | inl (host, k) ↦
              elim (Result-cases (consul.register client (registration name port host) s).0) [
                | inl (u, e) ↦ elim (Result-cases (listen (port_address port))) [
                  | inl (v, l) ↦ (client, host, c, k, ground arith, ground arith, ground arith)
                  | inr (d, l) ↦ absurd (ground arith)
                ]
                | inr (d, e) ↦ absurd (ground arith)
              ]
          | inr (d, k) ↦ absurd (ground arith)
        ]
        | inr (d, c) ↦ absurd (ground arith)
      ]

-- The `main` functions of practical4/student-cafe: the address that is served, and the state once the
-- goroutine that registers is done. The error of ListenAndServe is ignored.
module _ {S : Type 0} (consul : Consul S) where
  abbrev pub catalog_main : S → String × S
  catalog_main s = (":8080", register_cafe consul catalog_registration s)

  abbrev pub order_main : S → String × S
  order_main s = (":8081", register_cafe consul order_registration s)
