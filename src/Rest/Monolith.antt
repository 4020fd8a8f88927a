-- ===== src/Rest/Monolith.antt =====
-- practical5/student-cafe-monolith/handlers: users, menu items and orders over one database.
use Prim.Native.String.{String}
use ss2025_web.Base.{Bool, List, [], ◌∷◌, ◌++◌, Result}
use ss2025_web.Gorm.{Table}
use ss2025_web.Menu.{MenuItem}
use ss2025_web.Order.{Order, OrderItem}
use ss2025_web.Order.Server.{pending_order}
use ss2025_web.Http.{
  write_header, encode, status_bad_request, status_created, status_not_found,
  status_internal_server_error,
}
use ss2025_web.Http.Handler.{
  Handler, fail, or_fail, call, query, respond, set_json, pure, ◌>>=◌, ◌>>◌,
}
use ss2025_web.Rest.{Value, Customer, ItemBody, OrderBody}
use ss2025_web.Rest.Orders.{new_order_item}

module _ {S : Type 0} (users : Table S Customer) (marshals : Value → Bool) where
  unfoldable pub create_user : Result String Customer → Handler S Value (Unit {0})
  create_user body = do
    user ← or_fail body (λ e. fail e status_bad_request)
    created ← call (users.create user)
    user' ← or_fail created (λ e. fail (users.error_text e) status_internal_server_error)
    set_json
    respond (write_header status_created)
    respond (encode marshals (Value.customer user'))

  -- The text of the path is the inline condition of `First`.
  unfoldable pub get_user : String → Handler S Value (Unit {0})
  get_user id = do
    found ← query (users.first_raw id)
    user ← or_fail found (λ _. fail "User not found" status_not_found)
    set_json
    respond (encode marshals (Value.customer user))

module _ {S : Type 0} (menu : Table S MenuItem) (marshals : Value → Bool) where
  unfoldable pub get_menu : Handler S Value (Unit {0})
  get_menu = do
    found ← query (menu.find [])
    items ← or_fail found (λ e. fail (menu.error_text e) status_internal_server_error)
    set_json
    respond (encode marshals (Value.menu_items items))

  unfoldable pub create_menu_item : Result String MenuItem → Handler S Value (Unit {0})
  create_menu_item body = do
    item ← or_fail body (λ e. fail e status_bad_request)
    created ← call (menu.create item)
    item' ← or_fail created (λ e. fail (menu.error_text e) status_internal_server_error)
    set_json
    respond (write_header status_created)
    respond (encode marshals (Value.menu_item item'))

module _ {S : Type 0} (menu : Table S MenuItem) where
  -- The loop over `req.Items`.
  unfoldable pub add_items : List OrderItem → List ItemBody → Handler S Value (List OrderItem)
  add_items items [] = pure items
  add_items items (item ∷ rest) = do
    found ← query (menu.first [] item.menu_item_id)
    menu_item ← or_fail found (λ _. fail "Menu item not found" status_bad_request)
    add_items (items ++ new_order_item item menu_item.price ∷ []) rest

module _ {S : Type 0} (users : Table S Customer) (menu : Table S MenuItem) (orders : Table S Order)
    (marshals : Value → Bool) where
  unfoldable pub create_order : Result String OrderBody → Handler S Value (Unit {0})
  create_order body = do
    req ← or_fail body (λ e. fail e status_bad_request)
    known ← query (users.first [] req.user_id)
    or_fail known (λ _. fail "User not found" status_bad_request)
    items ← add_items menu [] req.items
    created ← call (orders.create (pending_order req.user_id items))
    order ← or_fail created (λ e. fail (orders.error_text e) status_internal_server_error)
    set_json
    respond (write_header status_created)
    respond (encode marshals (Value.order order))

  unfoldable pub get_orders : Handler S Value (Unit {0})
  get_orders = do
    found ← query (orders.find ("OrderItems" ∷ []))
    all ← or_fail found (λ e. fail (orders.error_text e) status_internal_server_error)
    set_json
    respond (encode marshals (Value.orders all))
