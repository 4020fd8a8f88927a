-- ===== src/System/Ordering.antt =====
-- POST /api/orders, then any requests, then GET /api/orders/{id}.
use ss2025_web.Base.{ℕ, ◌≡◌, sym, ap, ◌∙◌, Bool, true, some, List, [], ◌∷◌, map, ok, arith}
use Prim.Native.String.{String}
use ss2025_web.Base.Decimal.{decimal, parse_uint32-decimal}
use ss2025_web.Gorm.{Time, Table}
use ss2025_web.Rpc.{Status, returns}
use ss2025_web.Rpc.Inversion.{reads-returns}
use ss2025_web.Order.{
  Order, OrderItem, OrderMessage, CreateOrderRequest, CreateOrderResponse, GetOrderResponse,
}
use ss2025_web.Order.Server.{OrderServer, create_order, get_order, model_to_proto}
use ss2025_web.Order.RoundTrip.{Shows, get_order-create_order}
use ss2025_web.Http.Handler.{run}
use ss2025_web.Gateway.{Json}
use ss2025_web.Gateway.Orders.{OrderBody, item_request}
use ss2025_web.Gateway.Promise.{relay, from_id}
use ss2025_web.Gateway.Requests.{IsUint32, items-InRange}
use ss2025_web.Gateway.Routes.{Endpoint, Request, handle}
use ss2025_web.Gateway.Relay.{handle_relays}
use ss2025_web.System.Lens.{World}
use ss2025_web.System.{Deployment, orders_table, order_server, gateway_clients}
use ss2025_web.System.Lawful.{IsLawful, orders_law, orders_fit}
use ss2025_web.System.Safety.{user_reads, menu_reads}
use ss2025_web.System.Orders.{Listed, Listed-of_Snapshots}
use ss2025_web.System.Reach.{Reach, order_kept}
use ss2025_web.System.Walkthrough.{answered, dial-ok, dial_returns, relay_inv}

abbrev pub order_request : OrderBody → CreateOrderRequest
order_request b = record { user_id = b.user_id; items = map item_request b.items }

-- The row behind a GetOrder that returned.
order_row :
    {S Err : Type 0} (st : Status Err) (srv : OrderServer S Err) (db : Table S Order)
    (rfc3339 : Time → String) (i : ℕ) (s s' : S) (resp : GetOrderResponse)
    → get_order st srv db rfc3339 (record { id = i }) s ≡ (returns resp, s')
    → (o : Order) × (db.first ("OrderItems" ∷ []) i s ≡ ok o)
      × (resp ≡ record { order = some (model_to_proto rfc3339 o) })
unfolding get_order
order_row st srv db rfc3339 i s s' resp h =
    let (o, found, shown, _) = reads-returns _ _ (db.first ("OrderItems" ∷ []) i) s s' resp h in
    (o, found, shown)

row_order :
    {S Err : Type 0} (st : Status Err) (srv : OrderServer S Err) (db : Table S Order)
    (rfc3339 : Time → String) (i : ℕ) (s : S) (o : Order)
    → db.first ("OrderItems" ∷ []) i s ≡ ok o
    → get_order st srv db rfc3339 (record { id = i }) s
      ≡ (returns (record { order = some (model_to_proto rfc3339 o) }), s)
unfolding get_order
row_order st srv db rfc3339 i s o h = ground arith

module _ {U M O Err : Type 0} (d : Deployment U M O Err) (law : IsLawful d) (marshals : Json → Bool)
    (all : (v : Json) → marshals v ≡ true) where
  -- In a deployment whose status package and tables meet Rpc.IsStatus and Gorm.IsTable and whose IDs
  -- have 32 bits, while every value can be marshalled: a POST of an order, of a body of `uint32`
  -- numbers, that is answered with 201 is answered with the pending order of the user and the items of
  -- the body, at the prices of the menu database at that moment; and whatever requests come after it,
  -- a GET of the ID in that answer, written in decimal, is answered with 200 and an order of the same
  -- ID, user, status, items and prices.
  pub get_order_after_create_order :
      (r : Request) (b : OrderBody) (w w' w'' : World U M O) (j : Json)
      → IsUint32 b
      → run
          (handle d.status
            (gateway_clients d)
            marshals
            Endpoint.create_order
            (record r { order_body = ok b }))
          w
        ≡ answered 201 j w'
      → Reach d marshals w' w''
      → (items : List OrderItem) × (msg : OrderMessage) × (msg' : OrderMessage) × (j
          ≡ Json.order (some msg))
        × Listed d w (map item_request b.items) items
        × Shows (order_request b) items msg
        × (run
              (handle d.status
                (gateway_clients d)
                marshals
                Endpoint.get_order
                (record r { id = decimal msg.id }))
              w''
            ≡ answered 200 (Json.order (some msg')) w'')
        × (msg'.id ≡ msg.id)
        × Shows (order_request b) items msg'
  get_order_after_create_order r b w w' w'' j (narrow, fits) h between =
      let posted : Request = record r { order_body = ok b } in
      let (a, called, shown) =
        relay_inv d.status (λ (a : CreateOrderResponse). Json.order a.order)
          ((gateway_clients d).order_client.create_order (order_request b) w) w' j
          (sym (
              handle_relays d.status marshals all (gateway_clients d) Endpoint.create_order posted
                w)
            ∙ h) in
      let (items, msg, msg', priced, answer, shows, found, same, shows', small) =
        get_order-create_order d.status (order_server d) (orders_table d) d.rfc3339 (user_reads d)
          (menu_reads d) (orders_law law) (orders_fit law) (order_request b) w w' a
          (narrow, items-InRange b.items fits)
          (dial-ok d.lost (create_order d.status (order_server d) (orders_table d) d.rfc3339)
            (order_request b) w w' a called) in
      let (o, there, row) =
        order_row d.status (order_server d) (orders_table d) d.rfc3339 msg.id w' w'
          (record { order = some msg' }) found in
      let kept = order_kept d law marshals all between msg.id o there in
      let asked : Request = record r { id = decimal msg.id } in
      (
        items,
        msg,
        msg',
        sym shown ∙ ap Json.order answer,
        Listed-of_Snapshots d w (map item_request b.items) items priced,
        shows,
        handle_relays d.status marshals all (gateway_clients d) Endpoint.get_order asked w''
            ∙ ap
                (λ o.
                  from_id o "invalid order ID"
                    (λ n w.
                      relay d.status 200 (λ (a : GetOrderResponse). Json.order a.order)
                        ((gateway_clients d).order_client.get_order (record { id = n }) w))
                    w'')
                (parse_uint32-decimal msg.id small)
            ∙ ap (λ p. relay d.status 200 (λ (a : GetOrderResponse). Json.order a.order) p)
                (dial_returns d.lost
                  (get_order d.status (order_server d) (orders_table d) d.rfc3339)
                  (record { id = msg.id }) w'' w'' (record { order = some msg' })
                  (row_order d.status (order_server d) (orders_table d) d.rfc3339 msg.id w'' o kept
                    ∙ ap (λ x. (returns x, w'')) (sym row))),
        same,
        shows',
      )
