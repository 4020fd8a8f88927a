-- ===== src/Rest/Cafe.antt =====
-- The monolith of practical5 as a whole: one database of three tables, a handler behind each route of
-- main.go, and the abstract cafe that its clients see.
use Prim.Native.String.{String}
use ss2025_web.Base.{ℕ, ◌≡◌, Bool, none, some, List, [], ◌∷◌, map, Result, ok, false}
use ss2025_web.Base.Decimal.{parse_uint32}
use ss2025_web.Gorm.{Model, Table, IsTable}
use ss2025_web.User.RoundTrip as UserTrip
use ss2025_web.Menu.{MenuItem}
use ss2025_web.Menu.RoundTrip as MenuTrip
use ss2025_web.Order.{Order}
use ss2025_web.Order.RoundTrip as OrderTrip
use ss2025_web.Http.{Writer, Chunk, json, status_of}
use ss2025_web.Http.Handler.{Handler, Conn}
use ss2025_web.Http.Reply.{json_reply, error_reply}
use ss2025_web.Rest.{Value, Customer, ItemBody, OrderBody}
use ss2025_web.Rest.Monolith as Monolith
use ss2025_web.Gateway.Seen.{body_call, id_call}
use ss2025_web.Spec.{
  Account, Wish, Shop, Call, add_user, show_user, add_dish, list_dishes, place, list_orders, Shown,
  nothing, accounts, account, dishes, dish, tabs, tab, Seen, Serves,
}
use ss2025_web.System.Lens.{World, users_lens, menu_lens, orders_lens, zoom}
use ss2025_web.System.Shelves.{look}

-- The tables of the database.
pub record Database (U M O : Type 0) : Type 0 where
  pub users : Table U Customer
  pub menu : Table M MenuItem
  pub orders : Table O Order

-- The routes of `main`, each with what its handler reads of the request.
pub data Visit : Type 0 where
  post_user : Result String Customer → Visit
  get_user : String → Visit
  get_menu : Visit
  post_menu : Result String MenuItem → Visit
  new_order : Result String OrderBody → Visit
  get_orders : Visit

-- A monolith's user has no owner flag.
abbrev pub customer_account : Customer → Account
customer_account u = (u.name, u.email, false)

abbrev pub customer_model : Customer → Model
customer_model u = u.model

module _ {U M O : Type 0} (db : Database U M O) where
  abbrev pub users_table : Table (World U M O) Customer
  users_table = zoom users_lens db.users

  abbrev pub menu_table : Table (World U M O) MenuItem
  menu_table = zoom menu_lens db.menu

  abbrev pub orders_table : Table (World U M O) Order
  orders_table = zoom orders_lens db.orders

  -- The handler that `main` gives to each route.
  unfoldable pub visit : (Value → Bool) → Visit → Handler (World U M O) Value (Unit {0})
  visit marshals (post_user b) = Monolith.create_user users_table marshals b
  visit marshals (get_user id) = Monolith.get_user users_table marshals id
  visit marshals get_menu = Monolith.get_menu menu_table marshals
  visit marshals (post_menu b) = Monolith.create_menu_item menu_table marshals b
  visit marshals (new_order b) =
      Monolith.create_order users_table menu_table orders_table marshals b
  visit marshals get_orders = Monolith.get_orders users_table menu_table orders_table marshals

  -- What stands under each ID.
  abbrev pub rows_of : World U M O → Shop
  rows_of w = record {
    users = λ i. look customer_account (db.users.first [] i w.users);
    menu = λ i. look MenuTrip.columns (db.menu.first [] i w.menu);
    orders = λ i. look OrderTrip.columns (db.orders.first ("OrderItems" ∷ []) i w.orders);
  }

  -- The documented behaviour of the tables. A text of digits as the inline condition of `First` is a
  -- primary key.
  pub record IsLawful : Type 0 where
    pub users : IsTable db.users [] customer_model customer_account
    pub menu : IsTable db.menu [] MenuTrip.item_model MenuTrip.columns
    pub orders : IsTable db.orders ("OrderItems" ∷ []) OrderTrip.order_model OrderTrip.columns
    pub by_key :
        (text : String) (i : ℕ) (s : U)
        → parse_uint32 text ≡ some i
        → db.users.first_raw text s ≡ db.users.first [] i s

-- A value as a client reads it.
abbrev pub shown_value : Value → Shown
shown_value (Value.customer u) = account u.model.id (customer_account u)
shown_value (Value.user u) = account u.model.id (UserTrip.columns u)
shown_value (Value.users us) = accounts (map (λ u. (u.model.id, UserTrip.columns u)) us)
shown_value (Value.menu m) = nothing
shown_value (Value.menu_item m) = dish m.model.id (MenuTrip.columns m)
shown_value (Value.menu_items ms) = dishes (map (λ m. (m.model.id, MenuTrip.columns m)) ms)
shown_value (Value.order o) = tab o.model.id (OrderTrip.columns o)
shown_value (Value.orders os) = tabs (map (λ o. (o.model.id, OrderTrip.columns o)) os)

abbrev pub shown_chunks : List (Chunk Value) → Shown
shown_chunks (json v ∷ []) = shown_value v
shown_chunks _ = nothing

abbrev pub read : Writer Value → Seen
read w = record { status = status_of w; shown = shown_chunks w.body }

-- A visit as a call of the abstract cafe.
abbrev pub body_wish : ItemBody → Wish
body_wish i = (i.menu_item_id, i.quantity)

abbrev pub visit_call : Visit → Call
visit_call (post_user b) = body_call (λ (u : Customer). add_user (customer_account u)) b
visit_call (get_user id) = id_call show_user (parse_uint32 id)
visit_call get_menu = list_dishes
visit_call (post_menu b) = body_call (λ (m : MenuItem). add_dish (MenuTrip.columns m)) b
visit_call (new_order b) = body_call (λ (o : OrderBody). place o.user_id (map body_wish o.items)) b
visit_call get_orders = list_orders

-- The part `{id}` of the path is a number of 32 bits, and no row is posted as a deleted one.
abbrev pub IsPlain : Visit → Type 0
IsPlain (post_user b) = (u : Customer) → b ≡ ok u → u.model.deleted_at ≡ none
IsPlain (get_user id) = (i : ℕ) × (parse_uint32 id ≡ some i)
IsPlain get_menu = Unit
IsPlain (post_menu b) = (m : MenuItem) → b ≡ ok m → m.model.deleted_at ≡ none
IsPlain (new_order b) = Unit
IsPlain get_orders = Unit

module _ {U M O : Type 0} where
  -- A visit served, as the abstract cafe has it.
  abbrev pub IsServed : Database U M O → Call → World U M O → Conn (World U M O) Value → Type 0
  IsServed db c w conn = Serves c (rows_of db w) (read conn.writer) (rows_of db conn.state)

  abbrev pub replied : ℕ → Value → World U M O → Conn (World U M O) Value
  replied code v w = record { state = w; writer = json_reply code v }

  abbrev pub refused_with : String → ℕ → World U M O → Conn (World U M O) Value
  refused_with message code w = record { state = w; writer = error_reply message code }
