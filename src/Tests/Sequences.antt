-- ===== src/Tests/Sequences.antt =====
-- Requests in sequence and calls of CreateOrder side by side, in the cafe with one user and one item.
use ss2025_web.Base.{some, map, arith}
use ss2025_web.Base.Word.{as_i32, as_i32_small}
use ss2025_web.Base.Decimal.{decimal}
use ss2025_web.Order.{OrderItem, OrderMessage}
use ss2025_web.Order.Server.{model_to_proto}
use ss2025_web.Order.RoundTrip.{Shows}
use ss2025_web.Gateway.Orders.{OrderBody, item_request}
use ss2025_web.System.Orders.{Listed}
use ss2025_web.System.Walkthrough.{answered}
use ss2025_web.System.Answers.{create_order_answered}
use ss2025_web.System.Ordering.{order_request, get_order_after_create_order}
use ss2025_web.Tests.Fixtures.{pema, coffee}
use ss2025_web.Base.{ℕ, ◌≡◌, refl, true, Bool, none, List, [], ◌∷◌, ok, err}
use ss2025_web.Base.Word.{pos}
use ss2025_web.Rpc.{panics}
use ss2025_web.User.{User}
use ss2025_web.Menu.{MenuItem}
use ss2025_web.Order.{Order, CreateOrderRequest}
use ss2025_web.Order.Server.{new_order_item}
use ss2025_web.Order.Process.{asking_user, finished, step}
use ss2025_web.Http.Handler.{run}
use ss2025_web.Gateway.{Json}
use ss2025_web.Gateway.Routes.{Endpoint, Request, handle}
use ss2025_web.System.{gateway_clients, order_server, orders_table}
use ss2025_web.System.Books.{IsSound}
use ss2025_web.System.Reach.{Reach, here, later, request}
use ss2025_web.System.Concurrent.{
  Pool, update, Run, start, next, begin, move, other, IsSafe, Run-IsSafe,
}
use ss2025_web.Tests.Fixtures.{Failure, codes, clock, deployment, deployment-IsLawful, Cafe, cafe}

abbrev marshals : Json → Bool
marshals v = true

abbrev coffee_for : ℕ → Request
coffee_for i = record {
  id = "1";
  user_body = err "";
  item_body = err "";
  order_body = ok (record { user_id = i; items = record { menu_item_id = 1; quantity = 2 } ∷ [] });
}

abbrev dorji_body : Request
dorji_body = record (coffee_for 1) {
  user_body = ok (record { name = "Dorji"; email = "dorji@cafe.bt"; is_cafe_owner = true });
}

cafe-IsSound : IsSound deployment cafe
cafe-IsSound j = tt

abbrev served : Endpoint → Request → Cafe → Cafe
served e r w = (run (handle codes (gateway_clients deployment) marshals e r) w).state

abbrev ordered : Cafe
ordered = served Endpoint.create_order (coffee_for 1) cafe

abbrev grown : Cafe
grown = served Endpoint.create_user dorji_body ordered

two_requests : Reach deployment marshals cafe grown
two_requests =
    later (later here (request Endpoint.create_order (coffee_for 1) refl))
      (request Endpoint.create_user dorji_body refl)

abbrev stored : Order
stored = record {
  model = record { id = 1; created_at = 7; updated_at = 7; deleted_at = none };
  user_id = 1;
  status = "pending";
  order_items =
      new_order_item (record { menu_item_id = 1; quantity = pos 2 }) 4612811918334230528 ∷ [];
}

abbrev with_order : Cafe
with_order = record cafe { orders = stored ∷ [] }

one_request :
    Reach deployment marshals with_order (served Endpoint.create_user dorji_body with_order)
one_request = later here (request Endpoint.create_user dorji_body refl)

abbrev two_coffees : CreateOrderRequest
two_coffees = record { user_id = 1; items = record { menu_item_id = 1; quantity = pos 2 } ∷ [] }

abbrev idle : Pool (List User) (List MenuItem) (List Order) Failure
idle = record { world = cafe; pc = λ i. finished panics }

abbrev started : Pool (List User) (List MenuItem) (List Order) Failure
started = record idle { pc = update idle.pc 0 (asking_user two_coffees) }

abbrev moved :
    Pool (List User) (List MenuItem) (List Order) Failure
    → ℕ
    → Pool (List User) (List MenuItem) (List Order) Failure
moved p i = record {
  world = (step codes (order_server deployment) (orders_table deployment) clock (p.pc i) p.world).1;
  pc =
      update p.pc i
        (step codes (order_server deployment) (orders_table deployment) clock (p.pc i) p.world).0;
}

-- A user is added between the two remote calls of an order.
abbrev interrupted : Pool (List User) (List MenuItem) (List Order) Failure
interrupted = record (moved started 0) {
  world = served Endpoint.create_user dorji_body (moved started 0).world;
}

-- The call goes on to its insert and returns.
abbrev ended : Pool (List User) (List MenuItem) (List Order) Failure
ended = moved (moved interrupted 0) 0

interleaving : Run deployment marshals idle ended
interleaving =
    next
      (next
        (next (next (next start (begin 0 two_coffees panics refl refl)) (move 0 refl))
          (other Endpoint.create_user dorji_body refl))
        (move 0 refl))
      (move 0 refl)

Run-IsSafe_example : IsSafe deployment ended
Run-IsSafe_example =
    Run-IsSafe deployment deployment-IsLawful marshals (λ v. refl) idle ended interleaving
      (record { sound = cafe-IsSound; ready = λ i. tt })

abbrev two_of_one : OrderBody
two_of_one = record { user_id = 1; items = record { menu_item_id = 1; quantity = 2 } ∷ [] }

abbrev ordered_items : List OrderItem
ordered_items =
    new_order_item (record { menu_item_id = 1; quantity = pos 2 }) 4612811918334230528 ∷ []

as_i32_two : as_i32 2 ≡ pos 2
as_i32_two = as_i32_small 2 (omega arith)

coffee_found : Listed deployment cafe (map item_request two_of_one.items) ordered_items
coffee_found = ((coffee, refl, rw as_i32_two refl), tt)

create_order_answered_example :
    run
      (handle codes
        (gateway_clients deployment)
        marshals
        Endpoint.create_order
        (record (coffee_for 1) { order_body = ok two_of_one }))
      cafe
    ≡ answered 201 (Json.order (some (model_to_proto clock stored))) with_order
create_order_answered_example =
    create_order_answered deployment marshals (λ v. refl) (coffee_for 1) two_of_one pema
      ordered_items stored cafe (stored ∷ []) refl coffee_found refl

order_posted :
    run
      (handle codes
        (gateway_clients deployment)
        marshals
        Endpoint.create_order
        (record (coffee_for 1) { order_body = ok two_of_one }))
      cafe
    ≡ answered 201 (Json.order (some (model_to_proto clock stored))) with_order
order_posted =
    create_order_answered deployment marshals (λ v. refl) (coffee_for 1) two_of_one pema
      ordered_items stored cafe (stored ∷ []) refl coffee_found refl

get_order_after_create_order_example :
    (items : List OrderItem) × (msg : OrderMessage) × (msg' : OrderMessage) × (Json.order
        (some (model_to_proto clock stored))
      ≡ Json.order (some msg))
    × Listed deployment cafe (map item_request two_of_one.items) items
    × Shows (order_request two_of_one) items msg
    × (run
          (handle codes
            (gateway_clients deployment)
            marshals
            Endpoint.get_order
            (record (coffee_for 1) { id = decimal msg.id }))
          (served Endpoint.create_user dorji_body with_order)
        ≡ answered 200 (Json.order (some msg')) (served Endpoint.create_user dorji_body with_order))
    × (msg'.id ≡ msg.id)
    × Shows (order_request two_of_one) items msg'
get_order_after_create_order_example =
    get_order_after_create_order deployment deployment-IsLawful marshals (λ v. refl) (coffee_for 1)
      two_of_one cafe with_order (served Endpoint.create_user dorji_body with_order)
      (Json.order (some (model_to_proto clock stored)))
      (omega arith, ((omega arith, omega arith), tt)) order_posted one_request
