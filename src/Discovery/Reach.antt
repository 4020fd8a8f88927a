-- ===== src/Discovery/Reach.antt =====
-- The gateway of practical2, and the services that register.
use Prim.Native.String.{String, ◌++◌}
use ss2025_web.Base.{◌≡◌, refl, ap, ◌∙◌, List, ◌∷◌, Result, ok, format_v, arith}
use ss2025_web.Discovery.{Registration, Instance, Consul, url_of}
use ss2025_web.Discovery.Register.{users_registration, products_registration}
use ss2025_web.Discovery.Gateway.{forwards, discover_service, route_request}
use ss2025_web.Discovery.Routing.{forwarded, route_request_api}

module _ {S : Type 0} (consul : Consul S) (parse_url : String → Result String String) (s : S)
    (client : String) (reached : consul.new_client consul.default_address ≡ ok client)
    (r : Registration) (others : List Instance)
    (listed : consul.health client r.name s
      ≡ ok (record { address = r.address; port = r.port } ∷ others)) where
  -- A registered service that Consul lists first is discovered at its own address.
  discover_registered :
      discover_service consul parse_url r.name s ≡ parse_url (url_of r.address r.port)
  unfolding discover_service
  discover_registered = ground arith

-- Where Consul answers, lists the users service and the products service first under the names that
-- they registered, and their URLs parse, a request below `/api/users/` is forwarded to the users service
-- and one below `/api/products/` to the products service, each without the `/api`.
pub route_request-registered :
    {S : Type 0} (consul : Consul S) (parse_url : String → Result String String) (s : S)
    (client host_u host_p : String) (others_u others_p : List Instance) (u p : String)
    (reached : consul.new_client consul.default_address ≡ ok client)
    (users_listed : consul.health client (users_registration host_u).name s
      ≡ ok (
          record {
            address = (users_registration host_u).address;
            port = (users_registration host_u).port;
          }
          ∷ others_u))
    (products_listed : consul.health client (products_registration host_p).name s
      ≡ ok (
          record {
            address = (products_registration host_p).address;
            port = (products_registration host_p).port;
          }
          ∷ others_p))
    (users_url : parse_url
        (url_of (users_registration host_u).address (users_registration host_u).port)
      ≡ ok u)
    (products_url : parse_url
        (url_of (products_registration host_p).address (products_registration host_p).port)
      ≡ ok p)
    (rest : String)
    → (route_request consul parse_url ("/api/" ++ ("users" ++ String.◌∷◌ "/" rest)) s
        ≡ forwards u ("/" ++ ("users" ++ String.◌∷◌ "/" rest)))
      × (route_request consul parse_url ("/api/" ++ ("products" ++ String.◌∷◌ "/" rest)) s
          ≡ forwards p ("/" ++ ("products" ++ String.◌∷◌ "/" rest)))
unfolding format_v
route_request-registered consul parse_url s client host_u host_p others_u others_p u p reached
      users_listed products_listed users_url products_url rest =
    (
      route_request_api consul parse_url s "users" rest (refl, (refl, (refl, (refl, (refl, tt)))))
          ∙ ap (λ d. forwarded d ("/" ++ ("users" ++ String.◌∷◌ "/" rest)))
              (discover_registered consul parse_url s client reached (users_registration host_u)
                  others_u users_listed
                ∙ users_url),
      route_request_api consul parse_url s "products" rest
            (refl, (refl, (refl, (refl, (refl, (refl, (refl, (refl, tt))))))))
          ∙ ap (λ d. forwarded d ("/" ++ ("products" ++ String.◌∷◌ "/" rest)))
              (discover_registered consul parse_url s client reached (products_registration host_p)
                  others_p products_listed
                ∙ products_url),
    )
