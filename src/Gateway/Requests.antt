-- ===== src/Gateway/Requests.antt =====
-- The request that the gateway makes of the body of an order (handlers/order_handlers.go).
use ss2025_web.Base.{◌^◌, ◌<◌, List, [], ◌∷◌, map, All}
use ss2025_web.Base.Word.{IsInt32, as_i32-IsInt32}
use ss2025_web.Gateway.Orders.{ItemBody, OrderBody, item_request}

-- Every number of the body is a `uint32`, as its struct says.
abbrev pub IsUint32 : OrderBody → Type 0
IsUint32 b =
    (b.user_id < 2 ^ 32) × All (λ i. (i.menu_item_id < 2 ^ 32) × (i.quantity < 2 ^ 32)) b.items

pub items-InRange :
    (items : List ItemBody)
    → All (λ i. (i.menu_item_id < 2 ^ 32) × (i.quantity < 2 ^ 32)) items
    → All (λ r. (r.menu_item_id < 2 ^ 32) × IsInt32 r.quantity) (map item_request items)
items-InRange [] h = tt
items-InRange (i ∷ items) ((small, _), h) =
    ((small, as_i32-IsInt32 i.quantity), items-InRange items h)
