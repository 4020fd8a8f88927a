-- ===== src/Tests/Front.antt =====
-- Requests to the gateway in front of the cafe.
use ss2025_web.Base.{
  ◌^◌, ℕ, ◌≡◌, ◌≢◌, ◌≤◌, ◌<◌, ◌⊎◌, ◌-◌, refl, true, Bool, Option, some, none, List, [], ◌∷◌, Result,
  ok, err, arith,
}
use ss2025_web.Base.Word.{pos, negsuc}
use ss2025_web.Base.Decimal.{decimal}
use ss2025_web.User.{User, UserMessage}
use ss2025_web.User.Server as UserServer
use ss2025_web.User.RoundTrip.{Carries}
use ss2025_web.Http.{status_of}
use ss2025_web.Http.Reply.{Replied}
use ss2025_web.Http.Handler.{run}
use ss2025_web.Gateway.{Json, handle_grpc_error}
use ss2025_web.Gateway.Users as GatewayUsers
use ss2025_web.Gateway.Users.{UserBody}
use ss2025_web.Gateway.Routes.{Endpoint, Request, handle}
use ss2025_web.Gateway.Promise.{promised}
use ss2025_web.Gateway.Relay.{handle_relays}
use ss2025_web.Gateway.Replies.{handle-Replied}
use ss2025_web.System.{gateway_clients}
use ss2025_web.System.Atomic.{handle_atomic}
use ss2025_web.System.Walkthrough.{answered, user_request, get_user_after_create_user}
use ss2025_web.Tests.Fixtures.{codes, clock, deployment, deployment-IsLawful, Cafe, cafe, pema}

abbrev marshals : Json → Bool
marshals v = true

abbrev dorji_body : UserBody
dorji_body = record { name = "Dorji"; email = "dorji@cafe.bt"; is_cafe_owner = true }

-- A request for the user 9, whose bodies do not decode.
abbrev nobody : Request
nobody = record { id = "9"; user_body = err "EOF"; item_body = err "EOF"; order_body = err "EOF" }

handle_relays_example :
    run (handle codes (gateway_clients deployment) marshals Endpoint.get_user nobody) cafe
    ≡ promised codes (gateway_clients deployment) Endpoint.get_user nobody cafe
handle_relays_example =
    handle_relays codes marshals (λ v. refl) (gateway_clients deployment) Endpoint.get_user nobody
      cafe

handle-Replied_example :
    Replied
      (run
        (handle codes (gateway_clients deployment) marshals Endpoint.create_order nobody)
        cafe).writer
handle-Replied_example =
    handle-Replied codes (gateway_clients deployment) marshals (λ v. refl) Endpoint.create_order
      nobody cafe

nobody_found :
    status_of
      (run
        (handle codes (gateway_clients deployment) marshals Endpoint.get_user nobody)
        cafe).writer
    ≡ 404
unfolding handle GatewayUsers.get_user UserServer.get_user UserServer.get_user_error
    handle_grpc_error ss2025_web.Base.Decimal.parse_uint32 ss2025_web.Base.Word.to_u32
nobody_found = refl

nobody_is_error :
    400
    ≤ status_of
        (run
          (handle codes (gateway_clients deployment) marshals Endpoint.get_user nobody)
          cafe).writer
nobody_is_error = omega (arith, nobody_found)

handle_atomic_example :
    (run (handle codes (gateway_clients deployment) marshals Endpoint.get_user nobody) cafe).state
    ≡ cafe
handle_atomic_example =
    handle_atomic deployment deployment-IsLawful marshals (λ v. refl) Endpoint.get_user nobody cafe
      nobody_is_error

abbrev dorji : User
dorji = record {
  model = record { id = 2; created_at = 7; updated_at = 7; deleted_at = none };
  name = "Dorji";
  email = "dorji@cafe.bt";
  is_cafe_owner = true;
}

abbrev after : Cafe
after = record cafe { users = dorji ∷ pema ∷ [] }

abbrev shown : Json
shown = Json.user (some (UserServer.model_to_proto clock dorji))

dorji_posted :
    run
      (handle codes
        (gateway_clients deployment)
        marshals
        Endpoint.create_user
        (record nobody { user_body = ok dorji_body }))
      cafe
    ≡ answered 201 shown after
unfolding handle GatewayUsers.create_user UserServer.create_user
dorji_posted = refl

get_user_after_create_user_example :
    (msg : UserMessage) × (msg' : UserMessage) × (shown ≡ Json.user (some msg))
    × Carries (user_request dorji_body) msg
    × (run
          (handle codes
            (gateway_clients deployment)
            marshals
            Endpoint.get_user
            (record nobody { id = decimal msg.id }))
          after
        ≡ answered 200 (Json.user (some msg')) after)
    × (msg'.id ≡ msg.id)
    × Carries (user_request dorji_body) msg'
get_user_after_create_user_example =
    get_user_after_create_user deployment deployment-IsLawful marshals (λ v. refl) nobody dorji_body
      cafe after shown dorji_posted
