-- ===== src/Rest/Orders.antt =====
-- practical5/order-service/handlers/order_handlers.go: orders, with the other two services asked over
-- HTTP. `http.Get` is not part of the repository: it is a parameter, which gives an error or a status
-- and what a JSON decoder reads from the body.
use Prim.Native.String.{String}
use ss2025_web.Base.{ℕ, Bool, List, [], ◌∷◌, ◌++◌, format_v, Result, ok, err, ◌==◌, if◌then◌else◌}
use ss2025_web.Base.Decimal.{decimal}
use ss2025_web.Base.Word.{Float64}
use ss2025_web.Gorm.{Table, zero_model}
use ss2025_web.Order.{Order, OrderItem}
use ss2025_web.Order.Server.{pending_order}
use ss2025_web.Http.{
  Chunk, write_header, encode, status_ok, status_bad_request, status_created,
  status_internal_server_error,
}
use ss2025_web.Http.Handler.{
  Handler, fail, or_fail, call, query, respond, set_json, pure, ◌>>=◌, ◌>>◌,
}
use ss2025_web.Rest.{Value, ItemBody, OrderBody}

-- What `http.Get` returns.
pub record Response : Type 0 where
  pub status : ℕ
  pub body : List (Chunk Value)

abbrev pub HttpGet : Type 0 → Type 0
HttpGet S = String → S → Result String Response × S

-- `err != nil || resp.StatusCode != http.StatusOK`
abbrev pub accepted : Result String Response → Result String Response
accepted (err e) = err e
accepted (ok r) = if r.status == status_ok then ok r else err "status"

-- The literal `models.OrderItem{…}`.
abbrev pub new_order_item : ItemBody → Float64 → OrderItem
new_order_item item price = record {
  model = zero_model;
  order_id = 0;
  menu_item_id = item.menu_item_id;
  quantity = item.quantity;
  price = price;
}

abbrev pub user_url : ℕ → String
user_url i = format_v (format_v "http://user-service:8081" "/users/") (decimal i)

abbrev pub menu_url : ℕ → String
menu_url i = format_v (format_v "http://menu-service:8082" "/menu/") (decimal i)

-- `price_of` is the decoder into `struct{ Price float64 }`, whose error is ignored.
module _ {S : Type 0} (http_get : HttpGet S) (price_of : List (Chunk Value) → Float64) where
  -- The loop over `req.Items`.
  unfoldable pub add_items : List OrderItem → List ItemBody → Handler S Value (List OrderItem)
  add_items items [] = pure items
  add_items items (item ∷ rest) = do
    answer ← call (http_get (menu_url item.menu_item_id))
    menu_resp ← or_fail (accepted answer) (λ _. fail "Menu item not found" status_bad_request)
    add_items (items ++ new_order_item item (price_of menu_resp.body) ∷ []) rest

  module _ (db : Table S Order) (marshals : Value → Bool) where
    unfoldable pub create_order : Result String OrderBody → Handler S Value (Unit {0})
    create_order body = do
      req ← or_fail body (λ e. fail e status_bad_request)
      answer ← call (http_get (user_url req.user_id))
      or_fail (accepted answer) (λ _. fail "User not found" status_bad_request)
      items ← add_items [] req.items
      created ← call (db.create (pending_order req.user_id items))
      order ← or_fail created (λ e. fail (db.error_text e) status_internal_server_error)
      set_json
      respond (write_header status_created)
      respond (encode marshals (Value.order order))

    unfoldable pub get_orders : Handler S Value (Unit {0})
    get_orders = do
      found ← query (db.find ("OrderItems" ∷ []))
      orders ← or_fail found (λ e. fail (db.error_text e) status_internal_server_error)
      set_json
      respond (encode marshals (Value.orders orders))
