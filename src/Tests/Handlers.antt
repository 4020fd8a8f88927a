-- ===== src/Tests/Handlers.antt =====
-- The REST handlers for orders, at the tables in memory.
use ss2025_web.Base.{◌%◌, ◌^◌, ◌≡◌, inr, refl, true, Bool, none, List, [], ◌∷◌, ok, arith}
use ss2025_web.Base.Word.{pos, Float64, to_u32}
use ss2025_web.Base.Decimal.{decimal}
use ss2025_web.Gorm.{Table}
use ss2025_web.Rpc.{returns}
use ss2025_web.User.{User, GetUserResponse}
use ss2025_web.User.Server as UserServer
use ss2025_web.Order.{Order, OrderItem}
use ss2025_web.Order.Server as OrderServer
use ss2025_web.Order.Server.{pending_order}
use ss2025_web.Order.Handlers.{OrderBody, add_items, create_order}
use ss2025_web.Order.Handlers.Agrees.{Agrees, order_request, create_order-Agrees}
use ss2025_web.Order.Handlers.Truncated.{item_ids, create_order_truncates}
use ss2025_web.Http.{Chunk}
use ss2025_web.Http.Reply.{json_reply}
use ss2025_web.Http.Handler.{Conn, run}
use ss2025_web.Http.Serve.{serve}
use ss2025_web.Rest.{Value}
use ss2025_web.Rest as Rest
use ss2025_web.Rest.Users
use ss2025_web.Rest.Orders as RestOrders
use ss2025_web.Rest.Orders.{HttpGet, Response}
use ss2025_web.Rest.Loop.{response_of}
use ss2025_web.Rest.Known.{AsksUsers, Matches, create_order_known}
use ss2025_web.System.{order_server, orders_table, user_client}
use ss2025_web.Tests.Fixtures.{
  codes, codes-IsStatus, clock, deployment, order_rows, order_rows-IsTable, Cafe, cafe, pema,
}

abbrev marshals : Value → Bool
marshals v = true

abbrev two_coffees : OrderBody
two_coffees = record { user_id = 1; items = record { menu_item_id = 1; quantity = pos 2 } ∷ [] }

create_order-Agrees_example :
    Agrees codes
      (OrderServer.create_order codes
        (order_server deployment)
        (orders_table deployment)
        clock
        (order_request two_coffees)
        cafe)
      (serve
        (create_order (order_server deployment) (orders_table deployment) marshals (ok two_coffees))
        cafe)
create_order-Agrees_example =
    create_order-Agrees codes (order_server deployment) codes-IsStatus (orders_table deployment)
      clock marshals two_coffees cafe (omega arith, ((omega arith, omega arith), tt))

-- A user ID of 33 bits, which is 1 modulo 2^32.
abbrev wide : OrderBody
wide = record { user_id = 4294967297; items = [] }

abbrev wide_order : Order
wide_order = record {
  model = record { id = 1; created_at = 7; updated_at = 7; deleted_at = none };
  user_id = 4294967297;
  status = "pending";
  order_items = [];
}

abbrev taken : Conn Cafe Value
taken = record {
  state = record cafe { orders = wide_order ∷ [] };
  writer = json_reply 201 (Value.order wide_order);
}

wide_stored :
    serve (create_order (order_server deployment) (orders_table deployment) marshals (ok wide)) cafe
    ≡ (returns tt, taken)
unfolding create_order add_items UserServer.get_user to_u32
wide_stored = refl

create_order_truncates_example :
    (g : GetUserResponse) × (s1 : Cafe) × (s2 : Cafe) × (out : List OrderItem) × (o : Order)
    × ((user_client deployment).get_user (record { id = 4294967297 % 2 ^ 32 }) cafe ≡ (ok g, s1))
    × (item_ids out ≡ [])
    × ((orders_table deployment).create (pending_order 4294967297 out) s2 ≡ (ok o, taken.state))
create_order_truncates_example =
    create_order_truncates (order_server deployment) (orders_table deployment) marshals wide cafe
      taken wide_stored

-- The user service knows one user, under the ID 1.
abbrev users : Table (List Order) User
users = record {
  create = λ u s. (ok u, s);
  first = λ preloads i s. ok pema;
  first_raw = λ text s. ok pema;
  first_bound = λ text s. ok pema;
  find = λ preloads s. ok (pema ∷ []);
  error_text = λ e. "record not found";
}

-- Every GET is answered by the user service.
abbrev http_get : HttpGet (List Order)
http_get url s = response_of (run (Users.get_user users marshals url) s)

http_get-AsksUsers : AsksUsers http_get users marshals
unfolding Users.get_user
http_get-AsksUsers i s = inr refl

abbrev price_of : List (Chunk Value) → Float64
price_of body = 0

abbrev rest_body : Rest.OrderBody
rest_body = record { user_id = 1; items = record { menu_item_id = 1; quantity = pos 2 } ∷ [] }

abbrev rest_order : Order
rest_order = record {
  model = record { id = 1; created_at = 7; updated_at = 7; deleted_at = none };
  user_id = 1;
  status = "pending";
  order_items = RestOrders.new_order_item (record { menu_item_id = 1; quantity = pos 2 }) 0 ∷ [];
}

rest_ordered :
    (run (RestOrders.create_order http_get price_of order_rows marshals (ok rest_body)) []).writer
    ≡ json_reply 201 (Value.order rest_order)
unfolding RestOrders.create_order RestOrders.add_items Users.get_user
rest_ordered = refl

create_order_known_example :
    ((u : User) × (users.first_raw (decimal 1) [] ≡ ok u)) × Matches rest_body rest_order
create_order_known_example =
    create_order_known http_get price_of users order_rows order_rows-IsTable marshals (λ v. refl)
      http_get-AsksUsers rest_body [] rest_order rest_ordered
