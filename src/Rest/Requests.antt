-- ===== src/Rest/Requests.antt =====
-- The body of an order of the REST services as a request to the gRPC order service.
use ss2025_web.Base.{◌<◌, ◌^◌, ◌≡◌, refl, List, [], ◌∷◌, map, All}
use ss2025_web.Base.Word.{IsInt32, to_u32, int_to_i32, to_u32_small, int_to_i32_small}
use ss2025_web.Order.{OrderItemRequest, CreateOrderRequest}
use ss2025_web.Rest.{ItemBody, OrderBody}

-- The gRPC request for a body, each number cut to the type of its field in order.proto.
abbrev pub item_request : ItemBody → OrderItemRequest
item_request i = record { menu_item_id = to_u32 i.menu_item_id; quantity = int_to_i32 i.quantity }

abbrev pub order_request : OrderBody → CreateOrderRequest
order_request b = record { user_id = to_u32 b.user_id; items = map item_request b.items }

-- The numbers of a body fit those types.
abbrev pub Fits : ItemBody → Type 0
Fits i = (i.menu_item_id < 2 ^ 32) × IsInt32 i.quantity

abbrev pub IsNarrow : OrderBody → Type 0
IsNarrow b = (b.user_id < 2 ^ 32) × All Fits b.items

-- Such a body is passed on as it is.
abbrev pub plain_item : ItemBody → OrderItemRequest
plain_item i = record { menu_item_id = i.menu_item_id; quantity = i.quantity }

abbrev pub plain : OrderBody → CreateOrderRequest
plain b = record { user_id = b.user_id; items = map plain_item b.items }

item-plain : (i : ItemBody) → Fits i → item_request i ≡ plain_item i
item-plain i (small, fits) =
    cc (to_u32_small i.menu_item_id small, int_to_i32_small i.quantity fits)

items-plain :
    (items : List ItemBody) → All Fits items → map item_request items ≡ map plain_item items
items-plain [] h = refl
items-plain (i ∷ items) (fit, h) = cc (item-plain i fit, items-plain items h)

pub order_request-plain : (b : OrderBody) → IsNarrow b → order_request b ≡ plain b
order_request-plain b (small, h) = cc (to_u32_small b.user_id small, items-plain b.items h)
