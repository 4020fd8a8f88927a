-- ===== src/Gateway/Seen.antt =====
-- A request to the gateway as a call of the abstract cafe, and a reply as its client reads it.
use ss2025_web.Base.{
  ℕ, ◌≡◌, inl, inr, Option, none, some, List, [], ◌∷◌, map, Result, ok, err, arith, Option-cases,
}
use Prim.Native.String.{String}
use ss2025_web.Base.Word.{as_i32}
use ss2025_web.Base.Decimal.{parse_uint32}
use ss2025_web.Rpc.{Status, code_of}
use ss2025_web.User.{UserMessage}
use ss2025_web.Menu.{MenuItemMessage}
use ss2025_web.Order.{OrderMessage}
use ss2025_web.Order.RoundTrip.{message_line}
use ss2025_web.Http.{Writer, Chunk, json, status_of}
use ss2025_web.Gateway.{Json, http_status}
use ss2025_web.Gateway.Users.{UserBody}
use ss2025_web.Gateway.Items.{MenuItemBody}
use ss2025_web.Gateway.Orders.{ItemBody, OrderBody}
use ss2025_web.Gateway.Requests.{IsUint32}
use ss2025_web.Gateway.Promise.{grpc_error_reply}
use ss2025_web.Gateway.Routes.{Endpoint, Request}
use ss2025_web.Spec.{
  Account, Dish, Tab, Wish, Call, malformed, list_users, list_dishes, list_orders, add_user,
  show_user, add_dish, show_dish, place, show_order, Shown, nothing, accounts, dishes, tabs,
  account, dish, tab, Seen, refused,
}

abbrev pub message_account : UserMessage → Account
message_account m = (m.name, m.email, m.is_cafe_owner)

abbrev pub message_dish : MenuItemMessage → Dish
message_dish m = (m.name, m.description, m.price)

abbrev pub message_tab : OrderMessage → Tab
message_tab m = (m.user_id, m.status, map message_line m.order_items)

abbrev pub shown_json : Json → Shown
shown_json (Json.user (some m)) = account m.id (message_account m)
shown_json (Json.user none) = nothing
shown_json (Json.menu_item (some m)) = dish m.id (message_dish m)
shown_json (Json.menu_item none) = nothing
shown_json (Json.order (some m)) = tab m.id (message_tab m)
shown_json (Json.order none) = nothing
shown_json (Json.users ms) = accounts (map (λ m. (m.id, message_account m)) ms)
shown_json (Json.menu_items ms) = dishes (map (λ m. (m.id, message_dish m)) ms)
shown_json (Json.orders ms) = tabs (map (λ m. (m.id, message_tab m)) ms)

abbrev pub shown_body : List (Chunk Json) → Shown
shown_body (json v ∷ []) = shown_json v
shown_body _ = nothing

abbrev pub seen : Writer Json → Seen
seen w = record { status = status_of w; shown = shown_body w.body }

abbrev pub wish : ItemBody → Wish
wish i = (i.menu_item_id, as_i32 i.quantity)

abbrev pub body_call : {B : Type 0} → (B → Call) → Result String B → Call
body_call f (ok b) = f b
body_call f (err e) = malformed

abbrev pub user_call : UserBody → Call
user_call b = add_user (b.name, b.email, b.is_cafe_owner)

abbrev pub dish_call : MenuItemBody → Call
dish_call b = add_dish (b.name, b.description, b.price)

abbrev pub order_call : OrderBody → Call
order_call b = place b.user_id (map wish b.items)

abbrev pub id_call : (ℕ → Call) → Option ℕ → Call
id_call f (some i) = f i
id_call f none = malformed

abbrev pub call_of : Endpoint → Request → Call
call_of Endpoint.create_user r = body_call user_call r.user_body
call_of Endpoint.get_user r = id_call show_user (parse_uint32 r.id)
call_of Endpoint.get_users r = list_users
call_of Endpoint.create_menu_item r = body_call dish_call r.item_body
call_of Endpoint.get_menu_item r = id_call show_dish (parse_uint32 r.id)
call_of Endpoint.get_menu r = list_dishes
call_of Endpoint.create_order r = body_call order_call r.order_body
call_of Endpoint.get_order r = id_call show_order (parse_uint32 r.id)
call_of Endpoint.get_orders r = list_orders

-- The body of an order, if it decodes, has numbers of its struct's types.
abbrev pub IsTyped : Endpoint → Request → Type 0
IsTyped Endpoint.create_order r = (b : OrderBody) → r.order_body ≡ ok b → IsUint32 b
IsTyped _ r = Unit

pub seen-grpc_error_reply :
    {Err : Type 0} (st : Status Err) (e : Err) (c : ss2025_web.Rpc.Code)
    → code_of st e ≡ some c
    → seen (grpc_error_reply st e) ≡ refused (http_status c)
seen-grpc_error_reply st e c h = elim (Option-cases (st.from_error e)) [
  | inl n ↦ absurd (ground arith)
  | inr ((k, m), q) ↦ ground arith
]
