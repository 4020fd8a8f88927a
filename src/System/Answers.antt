-- ===== src/System/Answers.antt =====
-- Orders that the cafe can serve, through the gateway.
use ss2025_web.Base.{
  ℕ, ◌≡◌, refl, sym, ap, ◌∙◌, Bool, true, some, List, [], ◌∷◌, map, ok, err, arith,
}
use Prim.Native.String.{String}
use ss2025_web.Gorm.{Time, Table, DbError}
use ss2025_web.Rpc.{Status, dial, returns}
use ss2025_web.User.{User}
use ss2025_web.User.Server as UserServer
use ss2025_web.Menu.{MenuItem}
use ss2025_web.Menu.Server as MenuServer
use ss2025_web.Order.{Order, OrderItem, OrderItemRequest, CreateOrderRequest, CreateOrderResponse}
use ss2025_web.Order.Server.{create_order, new_order_item, pending_order, model_to_proto}
use ss2025_web.Order.Snapshot.{Snapshots}
use ss2025_web.Order.Create.{create_order_iff}
use ss2025_web.Http.Handler.{run}
use ss2025_web.Gateway.{Json}
use ss2025_web.Gateway.Orders.{OrderBody, item_request}
use ss2025_web.Gateway.Promise.{relay}
use ss2025_web.Gateway.Routes.{Endpoint, Request, handle}
use ss2025_web.Gateway.Relay.{handle_relays}
use ss2025_web.System.Lens.{World}
use ss2025_web.System.{
  Deployment, users_table, menu_table, orders_table, order_server, gateway_clients,
}
use ss2025_web.System.Safety.{user_reads, menu_reads}
use ss2025_web.System.Orders.{Listed}
use ss2025_web.System.Walkthrough.{answered, dial_returns}

pub item_price :
    (rfc3339 : Time → String) (m : MenuItem) → (MenuServer.model_to_proto rfc3339 m).price ≡ m.price
unfolding MenuServer.model_to_proto
item_price rfc3339 m = refl

module _ {S Err : Type 0} (st : Status Err) (rfc3339 : Time → String) (lost : Err) where
  pub row_user :
      (db : Table S User) (i : ℕ) (s : S) (u : User)
      → db.first [] i s ≡ ok u
      → dial lost (UserServer.get_user st db rfc3339) (record { id = i }) s
        ≡ (ok (record { user = some (UserServer.model_to_proto rfc3339 u) }), s)
  unfolding UserServer.get_user
  row_user db i s u h = ground arith

  pub row_item :
      (db : Table S MenuItem) (i : ℕ) (s : S) (m : MenuItem)
      → db.first [] i s ≡ ok m
      → dial lost (MenuServer.get_menu_item st db rfc3339) (record { id = i }) s
        ≡ (ok (record { menu_item = some (MenuServer.model_to_proto rfc3339 m) }), s)
  unfolding MenuServer.get_menu_item
  row_item db i s m h = ground arith

  pub missing_user :
      (db : Table S User) (i : ℕ) (s : S) (x : DbError)
      → db.first [] i s ≡ err x
      → dial lost (UserServer.get_user st db rfc3339) (record { id = i }) s
        ≡ (err (UserServer.get_user_error st db rfc3339 x), s)
  unfolding UserServer.get_user
  missing_user db i s x h = ground arith

  pub missing_item :
      (db : Table S MenuItem) (i : ℕ) (s : S) (x : DbError)
      → db.first [] i s ≡ err x
      → dial lost (MenuServer.get_menu_item st db rfc3339) (record { id = i }) s
        ≡ (err (MenuServer.get_menu_item_error st db rfc3339 x), s)
  unfolding MenuServer.get_menu_item
  missing_item db i s x h = ground arith

module _ {U M O Err : Type 0} (d : Deployment U M O Err) where
  pub Snapshots-of_Listed :
      (w : World U M O) (rs : List OrderItemRequest) (is : List OrderItem)
      → Listed d w rs is
      → Snapshots (order_server d) w rs is
  Snapshots-of_Listed w [] [] h = tt
  Snapshots-of_Listed w (r ∷ rs) (i ∷ is) ((m, e, made), h) = (
    record {
      item = MenuServer.model_to_proto d.rfc3339 m;
      fetched = row_item d.status d.rfc3339 d.lost (menu_table d) r.menu_item_id w m e;
      stored = made ∙ ap (new_order_item r) (sym (item_price d.rfc3339 m));
    },
    Snapshots-of_Listed w rs is h,
  )
  Snapshots-of_Listed w [] (i ∷ is) h = absurd h
  Snapshots-of_Listed w (r ∷ rs) [] h = absurd h

  create_order_served :
      (req : CreateOrderRequest) (u : User) (items : List OrderItem) (o : Order) (w : World U M O)
      (orders : O)
      → d.users.first [] req.user_id w.users ≡ ok u
      → Listed d w req.items items
      → d.orders.create (pending_order req.user_id items) w.orders ≡ (ok o, orders)
      → create_order d.status (order_server d) (orders_table d) d.rfc3339 req w ≡ (
        returns (record { order = some (model_to_proto d.rfc3339 o) }),
        record w { orders = orders },
      )
  create_order_served req u items o w orders known listed made =
      (create_order_iff d.status (order_server d) (orders_table d) d.rfc3339 (user_reads d)
          (menu_reads d) req w (record w { orders = orders })
          (record { order = some (model_to_proto d.rfc3339 o) })).1
        (record {
          user = record { user = some (UserServer.model_to_proto d.rfc3339 u) };
          known = row_user d.status d.rfc3339 d.lost (users_table d) req.user_id w u known;
          items = items;
          priced = Snapshots-of_Listed w req.items items listed;
          order = o;
          stored = ground arith;
          reply = refl;
        })

  -- While every value can be marshalled: a POST of an order to the gateway, of a user in the user
  -- database and of items in the menu database, which the order database takes, is answered with 201
  -- and the order that was stored, at the prices of the menu database, and changes nothing else.
  pub create_order_answered :
      (marshals : Json → Bool) (all : (v : Json) → marshals v ≡ true) (r : Request) (b : OrderBody)
      (u : User) (items : List OrderItem) (o : Order) (w : World U M O) (orders : O)
      → d.users.first [] b.user_id w.users ≡ ok u
      → Listed d w (map item_request b.items) items
      → d.orders.create (pending_order b.user_id items) w.orders ≡ (ok o, orders)
      → run
          (handle d.status
            (gateway_clients d)
            marshals
            Endpoint.create_order
            (record r { order_body = ok b }))
          w
        ≡ answered 201
            (Json.order (some (model_to_proto d.rfc3339 o)))
            (record w { orders = orders })
  create_order_answered marshals all r b u items o w orders known listed made =
      let req : CreateOrderRequest = record {
        user_id = b.user_id;
        items = map item_request b.items;
      } in
      handle_relays d.status marshals all (gateway_clients d) Endpoint.create_order
        (record r { order_body = ok b }) w
      ∙ ap (λ p. relay d.status 201 (λ (a : CreateOrderResponse). Json.order a.order) p)
          (dial_returns d.lost (create_order d.status (order_server d) (orders_table d) d.rfc3339)
            req w (record w { orders = orders })
            (record { order = some (model_to_proto d.rfc3339 o) })
            (create_order_served req u items o w orders known listed made))
