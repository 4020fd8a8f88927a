-- ===== src/Tests/Reach.antt =====
-- The two services of practical2, registered and called through the gateway.
use Prim.Native.String.{String, ◌++◌}
use text.Mathlib.Text.{◌==◌}
use ss2025_web.Base.{◌≡◌, refl, [], ◌∷◌, Result, ok, if◌then◌else◌, format_v}
use ss2025_web.Base.Decimal.{decimal}
use ss2025_web.Discovery.{Consul}
use ss2025_web.Discovery.Gateway.{forwards, route_request}
use ss2025_web.Discovery.Reach.{route_request-registered}

-- A Consul that lists both services.
abbrev both : Consul (Unit {0})
both = record {
  default_address = "127.0.0.1:8500";
  new_client = λ address. ok address;
  health = λ client name s.
      if name == "products-service"
      then ok (record { address = "localhost"; port = 8082 } ∷ [])
      else ok (record { address = "localhost"; port = 8081 } ∷ []);
  register = λ client r s. (ok tt, s);
}

abbrev parse_url : String → Result String String
parse_url u = ok u

route_request-registered_example :
    (route_request both parse_url ("/api/" ++ ("users" ++ String.◌∷◌ "/" "7")) tt
      ≡ forwards "http://localhost:8081" ("/" ++ ("users" ++ String.◌∷◌ "/" "7")))
    × (route_request both parse_url ("/api/" ++ ("products" ++ String.◌∷◌ "/" "7")) tt
        ≡ forwards "http://localhost:8082" ("/" ++ ("products" ++ String.◌∷◌ "/" "7")))
unfolding decimal format_v
route_request-registered_example =
    route_request-registered both parse_url tt "127.0.0.1:8500" "a" "b" [] []
      "http://localhost:8081" "http://localhost:8082" refl refl refl refl refl "7"
