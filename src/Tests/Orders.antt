-- ===== src/Tests/Orders.antt =====
-- An order for two coffees, and one for a user who does not exist.
use ss2025_web.Base.{
  ◌^◌, ◌<◌, ℕ, ◌≡◌, ◌≢◌, ◌⊎◌, ◌↔◌, refl, Option, some, none, List, [], ◌∷◌, ok, err, arith,
}
use ss2025_web.Base.Word.{pos}
use ss2025_web.Rpc.{returns, fails, panics, code_of, invalid_argument, internal}
use ss2025_web.User.{User}
use ss2025_web.User.Server as UserServer
use ss2025_web.Menu.Server as MenuServer
use ss2025_web.Order.{Order, OrderItem, OrderMessage, CreateOrderRequest, CreateOrderResponse}
use ss2025_web.Order.Server.{
  create_order, get_order, add_items, model_to_proto, new_order_item, pending_order,
}
use ss2025_web.Order.Snapshot.{Snapshots}
use ss2025_web.Order.Placing.{Placed}
use ss2025_web.Order.Create.{create_order_iff, create_order_atomic}
use ss2025_web.Order.RoundTrip.{Shows, get_order-create_order}
use ss2025_web.System.{orders_table, order_server}
use ss2025_web.System.Lawful.{orders_law, orders_fit}
use ss2025_web.System.Orders.{Listed, create_order_integrity}
use ss2025_web.System.Safety.{user_reads, menu_reads, create_order-ne-panics}
use ss2025_web.Tests.Fixtures.{
  codes, codes-IsStatus, clock, deployment, deployment-IsLawful, Cafe, cafe,
}

abbrev two_coffees : CreateOrderRequest
two_coffees = record { user_id = 1; items = record { menu_item_id = 1; quantity = pos 2 } ∷ [] }

abbrev of_nobody : CreateOrderRequest
of_nobody = record { user_id = 9; items = [] }

abbrev stored : Order
stored = record {
  model = record { id = 1; created_at = 7; updated_at = 7; deleted_at = none };
  user_id = 1;
  status = "pending";
  order_items =
      new_order_item (record { menu_item_id = 1; quantity = pos 2 }) 4612811918334230528 ∷ [];
}

abbrev after : Cafe
after = record cafe { orders = stored ∷ [] }

abbrev answer : CreateOrderResponse
answer = record { order = some (model_to_proto clock stored) }

two_coffees_placed :
    create_order codes (order_server deployment) (orders_table deployment) clock two_coffees cafe
    ≡ (returns answer, after)
unfolding create_order add_items UserServer.get_user MenuServer.get_menu_item
    MenuServer.model_to_proto
two_coffees_placed = refl

create_order_iff_example :
    (create_order codes (order_server deployment) (orders_table deployment) clock two_coffees cafe
      ≡ (returns answer, after))
    ↔ Placed codes
        (order_server deployment)
        (orders_table deployment)
        clock
        two_coffees
        cafe
        after
        answer
create_order_iff_example =
    create_order_iff codes (order_server deployment) (orders_table deployment) clock
      (user_reads deployment) (menu_reads deployment) two_coffees cafe after answer

create_order_integrity_example :
    (u : User) × (items : List OrderItem) × (o : Order) × (deployment.users.first [] 1 cafe.users
      ≡ ok u)
    × Listed deployment cafe two_coffees.items items
    × (deployment.orders.create (pending_order 1 items) cafe.orders ≡ (ok o, after.orders))
    × (after.users ≡ cafe.users)
    × (after.menu ≡ cafe.menu)
create_order_integrity_example =
    create_order_integrity deployment two_coffees cafe after answer two_coffees_placed

get_order-create_order_example :
    (items : List OrderItem) × (msg : OrderMessage) × (msg' : OrderMessage) × Snapshots
      (order_server deployment)
      cafe
      two_coffees.items
      items
    × (answer.order ≡ some msg)
    × Shows two_coffees items msg
    × (get_order codes
          (order_server deployment)
          (orders_table deployment)
          clock
          (record { id = msg.id })
          after
        ≡ (returns (record { order = some msg' }), after))
    × (msg'.id ≡ msg.id)
    × Shows two_coffees items msg'
    × (msg.id < 2 ^ 32)
get_order-create_order_example =
    get_order-create_order codes (order_server deployment) (orders_table deployment) clock
      (user_reads deployment) (menu_reads deployment) (orders_law deployment-IsLawful)
      (orders_fit deployment-IsLawful) two_coffees cafe after answer
      (omega arith, ((omega arith, omega arith), tt)) two_coffees_placed

of_nobody_refused :
    create_order codes (order_server deployment) (orders_table deployment) clock of_nobody cafe
    ≡ (fails (invalid_argument, "user not found: user not found"), cafe)
unfolding create_order UserServer.get_user UserServer.get_user_error ss2025_web.Base.format_v
of_nobody_refused = refl

create_order_atomic_example :
    (cafe ≡ cafe)
    × ((code_of codes (invalid_argument, "user not found: user not found") ≡ some invalid_argument)
        ⊎ (code_of codes (invalid_argument, "user not found: user not found") ≡ some internal))
create_order_atomic_example =
    create_order_atomic codes (order_server deployment) (orders_table deployment) clock
      (user_reads deployment) (menu_reads deployment) codes-IsStatus
      (orders_law deployment-IsLawful) of_nobody cafe cafe
      (invalid_argument, "user not found: user not found") of_nobody_refused

create_order-ne-panics_example :
    (create_order codes
      (order_server deployment)
      (orders_table deployment)
      clock
      two_coffees
      cafe).0
    ≢ panics
create_order-ne-panics_example = create_order-ne-panics deployment two_coffees cafe
