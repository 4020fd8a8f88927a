-- ===== src/Discovery/Register.antt =====
-- `registerServiceWithConsul` of practical2/services/users-service/main.go (products-service has the
-- same text under another name and port) and of practical4/student-cafe.
use Prim.Native.String.{String}
use ss2025_web.Base.{ℕ, Result, ok, err, format_v}
use ss2025_web.Discovery.{Registration, Consul, health_url}

-- What the service of practical2 registers, by its constants `serviceName` and `servicePort`.
abbrev pub registration : String → ℕ → String → Registration
registration service_name service_port hostname = record {
  id = format_v (format_v service_name "-") hostname;
  name = service_name;
  port = service_port;
  address = "localhost";
  check = record { http = health_url hostname service_port; interval = "10s"; timeout = "1s" };
}

-- `serviceName` and `servicePort` of the two services.
abbrev pub users_registration : String → Registration
users_registration = registration "users-service" 8081

abbrev pub products_registration : String → Registration
products_registration = registration "products-service" 8082

-- What a service of practical4 registers: the endpoint of its Kubernetes service.
abbrev pub cafe_registration : String → ℕ → String → Registration
cafe_registration service_name service_port service_address = record {
  id = service_name;
  name = service_name;
  port = service_port;
  address = service_address;
  check = record {
    http = health_url service_address service_port;
    interval = "10s";
    timeout = "1s";
  };
}

abbrev pub catalog_registration : Registration
catalog_registration =
    cafe_registration "food-catalog-service" 8080
      "food-catalog-service.student-cafe.svc.cluster.local"

abbrev pub order_registration : Registration
order_registration =
    cafe_registration "order-service" 8081 "order-service.student-cafe.svc.cluster.local"

module _ {S : Type 0} (consul : Consul S) where
  -- `hostname` is what `os.Hostname` returns.
  unfoldable pub register_service :
      String → ℕ → Result String String → S → Result String (Unit {0}) × S
  register_service service_name service_port hostname s =
      elim (consul.new_client consul.default_address) [
        | err e ↦ (err e, s)
        | ok client ↦ elim hostname [
          | err e ↦ (err e, s)
          | ok host ↦ consul.register client (registration service_name service_port host) s
        ]
      ]

  -- A failure is only logged.
  unfoldable pub register_cafe : Registration → S → S
  register_cafe r s = elim (consul.new_client "consul-server:8500") [
    | err e ↦ s
    | ok client ↦ (consul.register client r s).1
  ]
