-- ===== src/Discovery/Cafe.antt =====
-- practical4/student-cafe: the order service, which looks for the food catalog before it takes an
-- order, and the catalog.
use Prim.Native.String.{String}
use text.Mathlib.Text.{◌==◌}
use ss2025_web.Base.{Bool, Option, some, List, [], ◌∷◌, Result, ok, err, format_v, if◌then◌else◌}
use ss2025_web.Base.Word.{Float64}
use ss2025_web.Http.{
  status_bad_request, status_created, status_ok, status_internal_server_error, write_header, encode,
}
use ss2025_web.Http.Handler.{Handler, fail, or_fail, query, call, respond, set_json, ◌>>=◌, ◌>>◌}
use ss2025_web.Discovery.{Consul, url_of}

-- `FoodItem`
pub record FoodItem : Type 0 where
  pub id : String
  pub name : String
  pub price : Float64

abbrev food_item : String → String → Float64 → FoodItem
food_item i n p = record { id = i; name = n; price = p }

-- The prices are the bits of 2.50, 5.00 and 3.25.
abbrev pub food_items : List FoodItem
food_items =
    food_item "1" "Coffee" 4612811918334230528
    ∷ food_item "2" "Sandwich" 4617315517961601024
    ∷ food_item "3" "Muffin" 4614500768194494464
    ∷ []

-- `Order`
pub record Order : Type 0 where
  pub id : String
  pub item_ids : List String
  pub status : String

-- `orders`, a map by the order's ID; the state around it holds Consul and the source of UUIDs.
abbrev pub Orders : Type 0
Orders = String → Option Order

pub record Cafe (S : Type 0) : Type 0 where
  pub orders : Orders
  pub outside : S

-- `orders[id] = order`
abbrev pub put : String → Order → Orders → Orders
put id order orders k = if k == id then some order else orders k

-- `GET /items` of the catalog, and `GET /health` of both.
unfoldable pub get_items :
    {S : Type 0} → (List FoodItem → Bool) → Handler S (List FoodItem) (Unit {0})
get_items marshals = do set_json; respond (encode marshals food_items)

unfoldable pub health : {S J : Type 0} → Handler S J (Unit {0})
health = respond (write_header status_ok)

module _ {S : Type 0} (consul : Consul S) where
  unfoldable pub find_service : String → S → Result String String
  find_service service_name s = elim (consul.new_client "consul-server:8500") [
    | err e ↦ err e
    | ok client ↦ elim (consul.health client service_name s) [
      | err e ↦ err e
      | ok [] ↦ err (format_v "could not find any healthy instance of " service_name)
      | ok (service ∷ _) ↦ ok (url_of service.address service.port)
    ]
  ]

  -- `POST /orders`; `generate_uuid` is `uuid.GenerateUUID`, whose error is ignored.
  unfoldable pub post_order :
      (S → String × S) → (Order → Bool) → Result String Order → Handler (Cafe S) Order (Unit {0})
  unfolding find_service
  post_order generate_uuid marshals body = do
    new_order ← or_fail body (λ e. fail e status_bad_request)
    found ← query (λ c. find_service "food-catalog-service" c.outside)
    or_fail found (λ _. fail "Food catalog service not available" status_internal_server_error)
    order_id ← call (λ c. let (i, s) = generate_uuid c.outside in (i, record c { outside = s }))
    let order : Order = record new_order { id = order_id; status = "received" } in
        do
          call (λ c. (tt, record c { orders = put order_id order c.orders }))
          set_json
          respond (write_header status_created)
          respond (encode marshals order)
