-- ===== src/Tests/Sessions.antt =====
-- Runs of the deployed system beside the abstract cafe.
use ss2025_web.Base.{ℕ, ◌≡◌, refl, sym, Bool, true, some, List, [], ◌∷◌, map, ok, err, arith}
use ss2025_web.Base.Word.{pos, as_i32, to_u32, int_to_i32}
use ss2025_web.Base.Decimal.{decimal, parse_uint32-decimal}
use ss2025_web.User.Server as UserServer
use ss2025_web.Menu.Server as MenuServer
use ss2025_web.Order.Server as OrderServer
use ss2025_web.Gateway.Orders as GatewayOrders
use ss2025_web.Rpc.{panics, Outcome}
use ss2025_web.User.{User}
use ss2025_web.Menu.{MenuItem}
use ss2025_web.Order.{Order, CreateOrderRequest, CreateOrderResponse}
use ss2025_web.Order.RoundTrip.{InRange}
use ss2025_web.Order.Process.{asking_user, finished, step}
use ss2025_web.Gateway.{Json}
use ss2025_web.Gateway.Orders.{OrderBody}
use ss2025_web.Gateway.Requests.{IsUint32}
use ss2025_web.Gateway.Routes.{Endpoint, Request, handle}
use ss2025_web.Gateway.Seen.{seen, wish, IsTyped}
use ss2025_web.Spec.{place, Line, Tab, tab, shows, priced, Serves, Session}
use ss2025_web.System.{order_server, orders_table}
use ss2025_web.System.Shelves.{shop_of}
use ss2025_web.System.Refines.{handle_refines}
use ss2025_web.System.Sessions.{serve, gateway, get_orders-serve_all}
use ss2025_web.Spec.Server.{serve_all, IsListed}
use ss2025_web.System.Concurrent.{Pool, update, Run, start, next, begin, move}
use ss2025_web.Spec.Fresh.{IsDistinct}
use ss2025_web.System.Progress.{moves-finished}
use ss2025_web.System.Linear.{IsTypedRun, Run-IsDistinct, AllInFlight, Run-Session}
use ss2025_web.Tests.Fixtures.{Failure, codes, clock, deployment, deployment-IsLawful, Cafe, cafe}

abbrev marshals : Json → Bool
marshals v = true

abbrev two_of_one : OrderBody
two_of_one = record { user_id = 1; items = record { menu_item_id = 1; quantity = 2 } ∷ [] }

abbrev coffees : Request
coffees = record {
  id = "1";
  user_body = ok (record { name = "Dorji"; email = "dorji@cafe.bt"; is_cafe_owner = true });
  item_body = err "";
  order_body = ok two_of_one;
}

two_of_one-IsUint32 : IsUint32 two_of_one
two_of_one-IsUint32 = (omega arith, ((omega arith, omega arith), tt))

abbrev coffee_tab : Tab
coffee_tab = (1, "pending", (1, pos 2, 4612811918334230528) ∷ [])

coffees-IsTyped : IsTyped Endpoint.create_order coffees
coffees-IsTyped b e = let same : two_of_one ≡ b = ground arith in rw (sym same) two_of_one-IsUint32

handle_refines_example :
    Serves
      (place 1 ((1, pos 2) ∷ []))
      (shop_of deployment cafe)
      (shows 201 (tab 1 coffee_tab))
      (shop_of deployment (serve deployment marshals Endpoint.create_order coffees cafe).state)
unfolding as_i32 handle GatewayOrders.create_order OrderServer.create_order UserServer.get_user
    OrderServer.add_items MenuServer.get_menu_item OrderServer.model_to_proto to_u32 int_to_i32
    MenuServer.model_to_proto
handle_refines_example =
    handle_refines deployment deployment-IsLawful marshals (λ v. refl) Endpoint.create_order coffees
      cafe coffees-IsTyped

posted :
    seen (serve deployment marshals Endpoint.create_order coffees cafe).writer
    ≡ shows 201 (tab 1 coffee_tab)
unfolding handle GatewayOrders.create_order OrderServer.create_order UserServer.get_user
    OrderServer.add_items MenuServer.get_menu_item OrderServer.model_to_proto to_u32 int_to_i32
    MenuServer.model_to_proto
posted = refl

-- A user is added after the order.
abbrev afterwards : List (Endpoint × Request)
afterwards = (Endpoint.create_user, coffees) ∷ []

abbrev evening : Cafe
evening =
    (serve_all (gateway deployment marshals) afterwards
      (serve deployment marshals Endpoint.create_order coffees cafe).state).1

get_orders-serve_all_example :
    ((lines : List Line) × (priced (shop_of deployment cafe).menu (map wish two_of_one.items)
        ≡ some lines)
      × (coffee_tab ≡ (1, "pending", lines)))
    × (seen (serve deployment marshals Endpoint.get_order coffees evening).writer
        ≡ shows 200 (tab 1 coffee_tab))
    × IsListed 1 coffee_tab
        (seen (serve deployment marshals Endpoint.get_orders coffees evening).writer)
unfolding decimal
get_orders-serve_all_example =
    get_orders-serve_all deployment marshals deployment-IsLawful (λ v. refl) coffees two_of_one
      afterwards coffees 1 coffee_tab cafe refl two_of_one-IsUint32 posted (tt, tt)
      (parse_uint32-decimal 1 (omega arith))

abbrev two_coffees : CreateOrderRequest
two_coffees = record { user_id = 1; items = record { menu_item_id = 1; quantity = pos 2 } ∷ [] }

coffees_range : InRange two_coffees
coffees_range = (omega arith, ((omega arith, ground arith), tt))

abbrev idle : Pool (List User) (List MenuItem) (List Order) Failure
idle = record { world = cafe; pc = λ i. finished panics }

abbrev started :
    ℕ
    → Pool (List User) (List MenuItem) (List Order) Failure
    → Pool (List User) (List MenuItem) (List Order) Failure
started i p = record p { pc = update p.pc i (asking_user two_coffees) }

abbrev moved :
    ℕ
    → Pool (List User) (List MenuItem) (List Order) Failure
    → Pool (List User) (List MenuItem) (List Order) Failure
moved i p = record {
  world = (step codes (order_server deployment) (orders_table deployment) clock (p.pc i) p.world).1;
  pc =
      update p.pc i
        (step codes (order_server deployment) (orders_table deployment) clock (p.pc i) p.world).0;
}

-- Two orders begin; the second is inserted first.
abbrev both : Pool (List User) (List MenuItem) (List Order) Failure
both = moved 0 (moved 1 (moved 1 (moved 1 (moved 0 (moved 0 (started 1 (started 0 idle)))))))

abbrev crossing : Run deployment marshals idle both
crossing =
    next
      (next
        (next
          (next
            (next
              (next
                (next (next start (begin 0 two_coffees panics refl refl))
                  (begin 1 two_coffees panics refl refl))
                (move 0 refl))
              (move 0 refl))
            (move 1 refl))
          (move 1 refl))
        (move 1 refl))
      (move 0 refl)

coffees_typed : IsTypedRun deployment marshals crossing
coffees_typed = ((((((((tt, coffees_range), coffees_range), tt), tt), tt), tt), tt), tt)

Run-Session_example :
    Session
      (shop_of deployment cafe)
      ((place 1 ((1, pos 2) ∷ []), shows 201 (tab 1 coffee_tab))
        ∷ (place 1 ((1, pos 2) ∷ []), shows 201 (tab 2 coffee_tab))
        ∷ [])
      (shop_of deployment both.world)
    × AllInFlight deployment marshals both
unfolding step UserServer.get_user MenuServer.get_menu_item OrderServer.model_to_proto to_u32
    int_to_i32 MenuServer.model_to_proto
Run-Session_example =
    Run-Session deployment marshals deployment-IsLawful (λ v. refl) crossing coffees_typed (λ i. tt)

Run-IsDistinct_example : IsDistinct (
    (place 1 ((1, pos 2) ∷ []), shows 201 (tab 1 coffee_tab))
    ∷ (place 1 ((1, pos 2) ∷ []), shows 201 (tab 2 coffee_tab))
    ∷ [])
unfolding step UserServer.get_user MenuServer.get_menu_item OrderServer.model_to_proto to_u32
    int_to_i32 MenuServer.model_to_proto
Run-IsDistinct_example =
    Run-IsDistinct deployment marshals deployment-IsLawful (λ v. refl) crossing coffees_typed
      (λ i. tt)

abbrev crossing_moves : Run deployment marshals (started 1 (started 0 idle)) both
crossing_moves =
    next
      (next
        (next (next (next (next start (move 0 refl)) (move 0 refl)) (move 1 refl)) (move 1 refl))
        (move 1 refl))
      (move 0 refl)

moves-finished_example : (o : Outcome Failure CreateOrderResponse) × (both.pc 0 ≡ finished o)
moves-finished_example =
    moves-finished deployment marshals 0 crossing_moves ((((((tt, tt), tt), tt), tt), tt), tt)
      (omega arith)
