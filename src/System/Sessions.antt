-- ===== src/System/Sessions.antt =====
-- The gateway as a server of the abstract cafe: requests one after the other.
use mathlib.Core.Path.{subst}
use ss2025_web.Base.{ℕ, ◌≡◌, refl, ap, Bool, true, some, List, map, All, ok, arith}
use ss2025_web.Base.Decimal.{parse_uint32, parse_uint32-lt}
use ss2025_web.Http.Handler.{Conn, run}
use ss2025_web.Gateway.{Json}
use ss2025_web.Gateway.Orders.{OrderBody}
use ss2025_web.Gateway.Routes.{Endpoint, Request, handle}
use ss2025_web.Gateway.Requests.{IsUint32}
use ss2025_web.Gateway.Seen.{seen, wish, order_call, body_call, id_call, call_of, IsTyped}
use ss2025_web.Spec.{show_order, tab, Tab, Line, priced, shows}
use ss2025_web.Spec.Server.{
  Server, Implements, IsListed, serve_all, order_placed, order_shown, order-IsListed,
}
use ss2025_web.System.Lens.{World}
use ss2025_web.System.{Deployment, gateway_clients}
use ss2025_web.System.Lawful.{IsLawful}
use ss2025_web.System.Shelves.{shop_of}
use ss2025_web.System.Refines.{handle_refines}

module _ {U M O Err : Type 0} (d : Deployment U M O Err) (marshals : Json → Bool) where
  abbrev pub serve : Endpoint → Request → World U M O → Conn (World U M O) Json
  serve e r = run (handle d.status (gateway_clients d) marshals e r)

  abbrev pub gateway : Server (World U M O) (Endpoint × Request)
  gateway = record {
    view = shop_of d;
    call = λ q. call_of q.0 q.1;
    reply = λ q w. seen (serve q.0 q.1 w).writer;
    after = λ q w. (serve q.0 q.1 w).state;
  }

  abbrev pub IsFit : Endpoint × Request → Type 0
  IsFit q = IsTyped q.0 q.1

  module _ (law : IsLawful d) (all : (v : Json) → marshals v ≡ true) where
    pub gateway-Implements : Implements gateway IsFit
    gateway-Implements q w h = handle_refines d law marshals all q.0 q.1 w h

    -- In a deployment whose status package and tables meet Rpc.IsStatus and Gorm.IsTable and whose IDs
    -- have 32 bits, while every value can be marshalled: where a POST of an order, of a body of
    -- `uint32` numbers, is answered with 201 and shows a tab under an ID, the tab is of the user of the
    -- body, pending, with the items of the body at the prices of the menu at that moment; and after any
    -- further requests, whose order bodies have `uint32` numbers too, a GET of that ID is answered with
    -- 200 and shows that tab, and a GET of all orders is answered with 200 and lists that tab under
    -- that ID, or is answered with 500 and no value.
    pub get_orders-serve_all :
        (r : Request) (b : OrderBody) (requests : List (Endpoint × Request)) (r' : Request) (i : ℕ)
        (t : Tab) (w : World U M O)
        → r.order_body ≡ ok b
        → IsUint32 b
        → seen (serve Endpoint.create_order r w).writer ≡ shows 201 (tab i t)
        → All IsFit requests
        → parse_uint32 r'.id ≡ some i
        → let w' = (serve_all gateway requests (serve Endpoint.create_order r w).state).1 in
          ((lines : List Line) × (priced (shop_of d w).menu (map wish b.items) ≡ some lines)
            × (t ≡ (b.user_id, "pending", lines)))
          × (seen (serve Endpoint.get_order r' w').writer ≡ shows 200 (tab i t))
          × IsListed i t (seen (serve Endpoint.get_orders r' w').writer)
    get_orders-serve_all r b requests r' i t w body typed shown h id =
        let w' = (serve Endpoint.create_order r w).state in
        let (placed, there) =
          order_placed gateway gateway-Implements (Endpoint.create_order, r) b.user_id
            (map wish b.items) i t w (λ b' e. subst IsUint32 (ground arith) typed)
            (ap (body_call order_call) body) shown in
        (
          placed,
          order_shown gateway gateway-Implements requests (Endpoint.get_order, r') i t w' h tt
              (ap (id_call show_order) id) there,
          order-IsListed gateway gateway-Implements requests (Endpoint.get_orders, r') i t w' h tt
              refl (parse_uint32-lt r'.id id) there,
        )
