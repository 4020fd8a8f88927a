-- ===== src/Tests/Practicals.antt =====
-- The services of the other practicals.
use Prim.Native.String.{String, ◌++◌}
use ss2025_web.Base.{
  ℕ, ◌≡◌, ◌≤◌, ◌⊎◌, inl, inr, refl, true, Bool, none, List, [], ◌∷◌, ◌==◌, if◌then◌else◌,
  Bool-cases, arith, All, Result, ok, err, format_v,
}
use ss2025_web.Base.Word.{pos, Float64}
use ss2025_web.Base.Decimal.{decimal}
use ss2025_web.Base.Paths.{trim_prefix}
use ss2025_web.Gorm.{DbError, Table, zero_model}
use ss2025_web.User.{User}
use ss2025_web.Menu.{Menu, MenuItem}
use ss2025_web.Order.{Order}
use ss2025_web.Order.Server as OrderServer
use ss2025_web.User.Server as UserServer
use ss2025_web.Menu.Server as MenuServer
use ss2025_web.Rpc.{Code, dial}
use ss2025_web.Order.Server.{OrderServer}
use ss2025_web.Http.{Chunk, json, status_of}
use ss2025_web.Http.Reply.{json_reply}
use ss2025_web.Http.Handler.{run}
use ss2025_web.Rest.{Value, OrderBody, Customer}
use ss2025_web.Rest.Menus
use ss2025_web.Rest.Orders as RestOrders
use ss2025_web.Rest.Orders.{HttpGet, Response, menu_url}
use ss2025_web.Rest.Loop.{response_of, AsksMenus, Free}
use ss2025_web.Rest.Prices.{create_order-Free}
use ss2025_web.Rest.Monolith as Monolith
use ss2025_web.Rest.Requests.{order_request}
use ss2025_web.Rest.Migration.{SameRows, Mirrors, create_order_migrates}
use ss2025_web.Rest.Served.{served-SameRows}
use ss2025_web.Discovery.{Consul}
use ss2025_web.Discovery.Gateway.{forwards, discover_service, route_request}
use ss2025_web.Discovery.Routing.{forwarded, route_request-forwards, route_request_api}
use ss2025_web.Discovery.Cafe as CafeService
use ss2025_web.Discovery.Cafe.{Cafe, put, post_order}
use ss2025_web.Discovery.Ledger.{IsLedger, received, post_order-IsLedger, post_order_stored}
use ss2025_web.Tests.Fixtures as Fixtures
use ss2025_web.Tests.Fixtures.{
  codes, codes-IsStatus, clock, order_rows, order_rows-IsTable, Failure,
}

-- A Consul where the users service is up at localhost:8081.
abbrev consul : Consul (Unit {0})
consul = record {
  default_address = "127.0.0.1:8500";
  new_client = λ address. ok address;
  health = λ client name s. ok (record { address = "localhost"; port = 8081 } ∷ []);
  register = λ client r s. (ok tt, s);
}

abbrev parse_url : String → Result String String
parse_url u = ok u

users_7 :
    route_request consul parse_url "/api/users/7" tt ≡ forwards "http://localhost:8081" "/users/7"
unfolding route_request discover_service decimal format_v
users_7 = refl

route_request-forwards_example :
    (name : String) × (rest : String) × ("/users/7" ≡ "/" ++ (name ++ String.◌∷◌ "/" rest))
    × (trim_prefix "/api/users/7" "/" ≡ "api" ++ "/users/7")
    × (discover_service consul parse_url (format_v name "-service") tt ≡ ok "http://localhost:8081")
route_request-forwards_example =
    route_request-forwards consul parse_url tt "/api/users/7" "http://localhost:8081" "/users/7"
      users_7

route_request_api_example :
    route_request consul parse_url ("/api/" ++ ("users" ++ String.◌∷◌ "/" "7")) tt
    ≡ forwarded
        (discover_service consul parse_url (format_v "users" "-service") tt)
        ("/" ++ ("users" ++ String.◌∷◌ "/" "7"))
route_request_api_example =
    route_request_api consul parse_url tt "users" "7" (refl, (refl, (refl, (refl, (refl, tt)))))

abbrev uuid : Unit {0} → String × Unit {0}
uuid s = ("3f2a", s)

-- A body that claims to be a finished order.
abbrev claimed : CafeService.Order
claimed = record { id = "1"; item_ids = "2" ∷ []; status = "done" }

abbrev body : Result String CafeService.Order
body = ok claimed

abbrev empty_cafe : Cafe (Unit {0})
empty_cafe = record { orders = λ k. none; outside = tt }

abbrev marshals_order : CafeService.Order → Bool
marshals_order o = true

post_order-IsLedger_example :
    IsLedger (run (post_order consul uuid marshals_order body) empty_cafe).state.orders
post_order-IsLedger_example =
    post_order-IsLedger consul uuid marshals_order body empty_cafe (λ k. tt)

post_order_stored_example :
    ((o : CafeService.Order) × (body ≡ ok o)
      × (status_of (run (post_order consul uuid marshals_order body) empty_cafe).writer ≡ 201)
      × ((run (post_order consul uuid marshals_order body) empty_cafe).state
          ≡ record { orders = put "3f2a" (received "3f2a" o) empty_cafe.orders; outside = tt }))
    ⊎ ((400 ≤ status_of (run (post_order consul uuid marshals_order body) empty_cafe).writer)
        × ((run (post_order consul uuid marshals_order body) empty_cafe).state ≡ empty_cafe))
post_order_stored_example = post_order_stored consul uuid marshals_order body empty_cafe

-- A table that is never written and holds one row, under the ID 1.
abbrev single : {S M : Type 0} → M → Table S M
single m = record {
  create = λ r s. (err (DbError.failed "read only"), s);
  first = λ preloads i s. if i == 1 then ok m else err DbError.record_not_found;
  first_raw = λ c s. ok m;
  first_bound = λ c s. ok m;
  find = λ preloads s. ok (m ∷ []);
  error_text = λ e. "record not found";
}

single-found :
    {S M N : Type 0} (m : M) (n : N) (i : ℕ) (s : S) (r : M)
    → (single m).first [] i s ≡ ok r
    → (t : N) × ((single n).first [] i s ≡ ok t)
single-found m n i s r h = elim (Bool-cases (i == 1)) [
  | inl y ↦ (n, ground arith)
  | inr k ↦ absurd (ground arith)
]

single-missing :
    {S M N : Type 0} (m : M) (n : N) (i : ℕ) (s : S) (d : DbError)
    → (single m).first [] i s ≡ err d
    → (e : DbError) × ((single n).first [] i s ≡ err e)
single-missing m n i s d h = elim (Bool-cases (i == 1)) [
  | inl y ↦ absurd (ground arith)
  | inr k ↦ (DbError.record_not_found, ground arith)
]

abbrev customer : Customer
customer = record { model = Fixtures.pema.model; name = "Pema"; email = "pema@cafe.bt" }

abbrev customers : Table (List Order) Customer
customers = single customer

abbrev accounts : Table (List Order) User
accounts = single Fixtures.pema

abbrev menu : Table (List Order) MenuItem
menu = single Fixtures.coffee

abbrev lost : Failure
lost = (Code.unavailable, "connection lost")

-- The gRPC services over the same rows.
abbrev srv : OrderServer (List Order) Failure
srv = record {
  user_client = record {
    create_user = dial lost (UserServer.create_user codes accounts clock);
    get_user = dial lost (UserServer.get_user codes accounts clock);
    get_users = dial lost (UserServer.get_users codes accounts clock);
  };
  menu_client = record {
    get_menu_item = dial lost (MenuServer.get_menu_item codes menu clock);
    get_menu = dial lost (MenuServer.get_menu codes menu clock);
    create_menu_item = dial lost (MenuServer.create_menu_item codes menu clock);
  };
}

srv-SameRows : SameRows customers menu srv
srv-SameRows =
    served-SameRows codes clock lost customers accounts menu srv (λ q s. refl) (λ q s. refl)
      (single-found customer Fixtures.pema) (single-missing customer Fixtures.pema)

abbrev marshals_value : Value → Bool
marshals_value v = true

abbrev two_coffees : OrderBody
two_coffees = record { user_id = 1; items = record { menu_item_id = 1; quantity = pos 2 } ∷ [] }

create_order_migrates_example :
    Mirrors codes
      (OrderServer.create_order codes srv order_rows clock (order_request two_coffees) [])
      (run (Monolith.create_order customers menu order_rows marshals_value (ok two_coffees)) [])
create_order_migrates_example =
    create_order_migrates codes customers menu srv srv-SameRows codes-IsStatus order_rows clock
      marshals_value two_coffees [] (omega arith, ((omega arith, omega arith), tt))

abbrev breakfast : Menu
breakfast = record {
  model = zero_model;
  name = "Breakfast";
  description = "Until ten";
  menu_items = Fixtures.coffee ∷ [];
}

abbrev menus : Table (List Order) Menu
menus = single breakfast

-- Every GET is answered by the menu service.
abbrev http_get : HttpGet (List Order)
http_get url s = response_of (run (Menus.get_menu menus marshals_value url) s)

abbrev price_of : List (Chunk Value) → Float64
price_of (json (Value.menu_item m) ∷ rest) = m.price
price_of _ = 0

http_get-AsksMenus : AsksMenus http_get menus marshals_value
unfolding Menus.get_menu
http_get-AsksMenus i s = inr refl

abbrev free_order : Order
free_order = record {
  model = record { id = 1; created_at = 7; updated_at = 7; deleted_at = none };
  user_id = 1;
  status = "pending";
  order_items = RestOrders.new_order_item (record { menu_item_id = 1; quantity = pos 2 }) 0 ∷ [];
}

ordered :
    (run
      (RestOrders.create_order http_get price_of order_rows marshals_value (ok two_coffees))
      []).writer
    ≡ json_reply 201 (Value.order free_order)
unfolding RestOrders.create_order RestOrders.add_items Menus.get_menu
ordered = refl

create_order-Free_example : All Free free_order.order_items
create_order-Free_example =
    create_order-Free http_get price_of menus order_rows order_rows-IsTable marshals_value
      (λ v. refl) http_get-AsksMenus (λ m. refl) two_coffees [] free_order ordered
