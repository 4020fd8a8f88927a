-- ===== src/System/Refines.antt =====
-- The gateway and the services behind it, beside the abstract cafe.
mod Users
mod Items
pub mod Priced
mod Shown
pub mod Orders
mod Lists
use Prim.Native.String.{String}
use mathlib.Core.Path.{subst}
use ss2025_web.Base.{
  ℕ, ◌<◌, ◌^◌, ◌≡◌, refl, sym, ap, Bool, true, Option, none, some, List, [], ◌∷◌, map, Result, ok,
  err,
}
use ss2025_web.Base.Decimal.{parse_uint32, parse_uint32-lt}
use ss2025_web.Order.{CreateOrderRequest, CreateOrderResponse}
use ss2025_web.Http.Handler.{Conn, run}
use ss2025_web.Gateway.{Json}
use ss2025_web.Gateway.Orders.{ItemBody, OrderBody, item_request}
use ss2025_web.Gateway.Requests.{IsUint32, items-InRange}
use ss2025_web.Gateway.Promise.{relay, from_id, from_body, promised}
use ss2025_web.Gateway.Relay.{handle_relays}
use ss2025_web.Gateway.Routes.{Endpoint, Request, handle}
use ss2025_web.Gateway.Seen.{
  seen, wish, user_call, dish_call, order_call, body_call, id_call, call_of, IsTyped,
}
use ss2025_web.Spec.{Call, malformed, place, Shop, Seen, Serves}
use ss2025_web.System.Lens.{World}
use ss2025_web.System.{Deployment, order_client, gateway_clients}
use ss2025_web.System.Lawful.{IsLawful}
use ss2025_web.System.Shelves.{shop_of}
use Users.{create_user-Serves, get_user-Serves}
use Items.{create_menu_item-Serves, get_menu_item-Serves}
use Priced.{request_wish}
use Orders.{create_order-Serves}
use Shown.{get_order-Serves}
use Lists.{get_users-Serves, get_menu-Serves, get_orders-Serves}

pub wishes-convert :
    (items : List ItemBody) → map request_wish (map item_request items) ≡ map wish items
wishes-convert [] = refl
wishes-convert (i ∷ items) = ap (λ ws. wish i ∷ ws) (wishes-convert items)

module _ {U M O Err : Type 0} (d : Deployment U M O Err) where
  -- The call, its reply and what it leaves, as the abstract cafe has them.
  abbrev pub IsServed : Call → World U M O → Conn (World U M O) Json → Type 0
  IsServed c w conn = Serves c (shop_of d w) (seen conn.writer) (shop_of d conn.state)

  module _ (law : IsLawful d) where
    of_id :
        (o : Option ℕ) (message : String) (f : ℕ → Call)
        (k : ℕ → World U M O → Conn (World U M O) Json) (w : World U M O)
        → ((n : ℕ) → o ≡ some n → IsServed (f n) w (k n w))
        → IsServed (id_call f o) w (from_id o message k w)
    of_id none message f k w h = (refl, refl)
    of_id (some n) message f k w h = h n refl

    of_body :
        {B : Type 0} (b : Result String B) (f : B → Call)
        (k : B → World U M O → Conn (World U M O) Json) (w : World U M O)
        → ((c : B) → b ≡ ok c → IsServed (f c) w (k c w))
        → IsServed (body_call f b) w (from_body b k w)
    of_body (err e) f k w h = (refl, refl)
    of_body (ok c) f k w h = h c refl

    order_Serves :
        (b : OrderBody) (w : World U M O)
        → IsUint32 b
        → IsServed (order_call b) w (
            relay d.status 201
              (λ (a : CreateOrderResponse). Json.order a.order)
              ((order_client d).create_order
                (record { user_id = b.user_id; items = map item_request b.items })
                w))
    order_Serves b w (small, h) =
        let q : CreateOrderRequest = record {
          user_id = b.user_id;
          items = map item_request b.items;
        } in
        let conn =
          relay d.status 201 (λ (a : CreateOrderResponse). Json.order a.order)
            ((order_client d).create_order q w) in
        subst (λ ws. IsServed (place b.user_id ws) w conn) (wishes-convert b.items)
          (create_order-Serves d law q w (small, items-InRange b.items h))

    promised-Serves :
        (e : Endpoint) (r : Request) (w : World U M O)
        → IsTyped e r
        → IsServed (call_of e r) w (promised d.status (gateway_clients d) e r w)
    promised-Serves Endpoint.create_user r w h =
        of_body r.user_body user_call _ w (λ b e. create_user-Serves d law _ w)
    promised-Serves Endpoint.get_user r w h =
        of_id (parse_uint32 r.id) _ _ _ w
          (λ n e. get_user-Serves d law n w (parse_uint32-lt r.id e))
    promised-Serves Endpoint.get_users r w h = get_users-Serves d law w
    promised-Serves Endpoint.create_menu_item r w h =
        of_body r.item_body dish_call _ w (λ b e. create_menu_item-Serves d law _ w)
    promised-Serves Endpoint.get_menu_item r w h =
        of_id (parse_uint32 r.id) _ _ _ w
          (λ n e. get_menu_item-Serves d law n w (parse_uint32-lt r.id e))
    promised-Serves Endpoint.get_menu r w h = get_menu-Serves d law w
    promised-Serves Endpoint.create_order r w h =
        of_body r.order_body order_call _ w (λ b e. order_Serves b w (h b e))
    promised-Serves Endpoint.get_order r w h =
        of_id (parse_uint32 r.id) _ _ _ w
          (λ n e. get_order-Serves d law n w (parse_uint32-lt r.id e))
    promised-Serves Endpoint.get_orders r w h = get_orders-Serves d law w

    -- In a deployment whose status package and tables meet Rpc.IsStatus and Gorm.IsTable and whose IDs
    -- have 32 bits, while every value can be marshalled: any request to the gateway, the numbers of an
    -- order's body being `uint32`, is a call of the abstract cafe. Its reply, as a status and the value
    -- shown, and the databases after it, as what stands under each ID, are a reply to that call and a
    -- cafe after it that the abstract cafe has.
    pub handle_refines :
        (marshals : Json → Bool) (all : (v : Json) → marshals v ≡ true) (e : Endpoint) (r : Request)
        (w : World U M O)
        → IsTyped e r
        → let c = run (handle d.status (gateway_clients d) marshals e r) w in
          Serves (call_of e r) (shop_of d w) (seen c.writer) (shop_of d c.state)
    handle_refines marshals all e r w h =
        rw (handle_relays d.status marshals all (gateway_clients d) e r w) (promised-Serves e r w h)
