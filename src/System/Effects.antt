-- ===== src/System/Effects.antt =====
-- What a request to the gateway does to the three databases.
use ss2025_web.Base.{
  ℕ, ◌≡◌, refl, inl, inr, Bool, true, Option, none, some, [], List, Result, ok, err, arith,
  Result-cases,
}
use Prim.Native.String.{String}
use ss2025_web.User.{User, CreateUserRequest}
use ss2025_web.User.RoundTrip.{create_user-returns}
use ss2025_web.User.Server as UserServer
use ss2025_web.Menu.{MenuItem, CreateMenuItemRequest}
use ss2025_web.Menu.RoundTrip.{create_menu_item-returns}
use ss2025_web.Menu.Server as MenuServer
use ss2025_web.Order.{Order, OrderItem, CreateOrderRequest}
use ss2025_web.Order.Server as OrderServer
use ss2025_web.Order.Server.{pending_order}
use ss2025_web.Http.Handler.{Conn, run}
use ss2025_web.Gateway.{Json}
use ss2025_web.Gateway.Routes.{Endpoint, Request, handle}
use ss2025_web.Gateway.Promise.{relay, from_id, from_body, promised}
use ss2025_web.Gateway.Relay.{handle_relays}
use ss2025_web.Base.Decimal.{parse_uint32}
use ss2025_web.System.Lens.{World}
use ss2025_web.System.{
  Deployment, users_table, menu_table, orders_table, user_client, menu_client, order_server,
  order_client, gateway_clients,
}
use ss2025_web.System.Lawful.{IsLawful, users_law, users_fit, menu_law, menu_fit}
use ss2025_web.System.Safety.{user_reads, menu_reads}
use ss2025_web.System.Atomic.{
  create_user-IsAtomic, create_menu_item-IsAtomic, create_order-IsAtomic, get_users-ReadsOnly,
  get_menu-ReadsOnly, get_order-ReadsOnly, get_orders-ReadsOnly,
}
use ss2025_web.System.Walkthrough.{dial-ok}
use ss2025_web.System.Orders.{Listed, create_order_integrity}

-- Nothing changes, or one row is added to one of the databases; an order is added for a user and for
-- items that are there.
pub data Effect {U M O Err : Type 0} (d : Deployment U M O Err) (w w' : World U M O) : Type 0 where
  nothing : w' ≡ w → Effect d w w'
  user_added :
      (u u' : User)
      → d.users.create u w.users ≡ (ok u', w'.users)
      → w'.menu ≡ w.menu
      → w'.orders ≡ w.orders
      → Effect d w w'
  item_added :
      (m m' : MenuItem)
      → d.menu.create m w.menu ≡ (ok m', w'.menu)
      → w'.users ≡ w.users
      → w'.orders ≡ w.orders
      → Effect d w w'
  order_added :
      (req : CreateOrderRequest) (u : User) (items : List OrderItem) (o : Order)
      → d.users.first [] req.user_id w.users ≡ ok u
      → Listed d w req.items items
      → d.orders.create (pending_order req.user_id items) w.orders ≡ (ok o, w'.orders)
      → w'.users ≡ w.users
      → w'.menu ≡ w.menu
      → Effect d w w'

module _ {U M O Err : Type 0} (d : Deployment U M O Err) (law : IsLawful d) where
  create_user-Effect :
      (q : CreateUserRequest) (w : World U M O) → Effect d w ((user_client d).create_user q w).1
  create_user-Effect q w =
      let w' = ((user_client d).create_user q w).1 in
      elim (Result-cases ((user_client d).create_user q w).0) [
        | inl (a, e) ↦
            let returned =
              dial-ok d.lost (UserServer.create_user d.status (users_table d) d.rfc3339) q w w' a
                (ground arith) in
            let (u, made, _) =
              create_user-returns d.status (users_table d) d.rfc3339 (users_law law) (users_fit law)
                q w w' a returned in
            user_added (UserServer.new_user q) u (ground (arith, made)) (ground (arith, made))
              (ground (arith, made))
        | inr (e, k) ↦ nothing (create_user-IsAtomic d law q w w' e (ground arith))
      ]

  create_menu_item-Effect :
      (q : CreateMenuItemRequest) (w : World U M O)
      → Effect d w ((menu_client d).create_menu_item q w).1
  create_menu_item-Effect q w =
      let w' = ((menu_client d).create_menu_item q w).1 in
      elim (Result-cases ((menu_client d).create_menu_item q w).0) [
        | inl (a, e) ↦
            let returned =
              dial-ok d.lost (MenuServer.create_menu_item d.status (menu_table d) d.rfc3339) q w w'
                a (ground arith) in
            let (m, made, _) =
              create_menu_item-returns d.status (menu_table d) d.rfc3339 (menu_law law)
                (menu_fit law) q w w' a returned in
            item_added (MenuServer.new_menu_item q) m (ground (arith, made)) (ground (arith, made))
              (ground (arith, made))
        | inr (e, k) ↦ nothing (create_menu_item-IsAtomic d law q w w' e (ground arith))
      ]

  create_order-Effect :
      (q : CreateOrderRequest) (w : World U M O) → Effect d w ((order_client d).create_order q w).1
  create_order-Effect q w =
      let w' = ((order_client d).create_order q w).1 in
      elim (Result-cases ((order_client d).create_order q w).0) [
        | inl (a, e) ↦
            let (u, items, o, known, listed, made, same_users, same_menu) =
              create_order_integrity d q w w' a (
                dial-ok d.lost
                  (OrderServer.create_order d.status (order_server d) (orders_table d) d.rfc3339) q
                  w w' a (ground arith)) in
            order_added q u items o known listed made same_users same_menu
        | inr (e, k) ↦ nothing (create_order-IsAtomic d law q w w' e (ground arith))
      ]

  relayed :
      {A : Type 0} (code : ℕ) (v : A → Json) (p : Result Err A × World U M O) (w : World U M O)
      → Effect d w p.1
      → Effect d w (relay d.status code v p).state
  relayed code v (ok a, w') w h = h
  relayed code v (err e, w') w h = h

  of_body :
      {B : Type 0} (b : Result String B) (k : B → World U M O → Conn (World U M O) Json)
      (w : World U M O)
      → ((c : B) → Effect d w (k c w).state)
      → Effect d w (from_body b k w).state
  of_body (ok c) k w h = h c
  of_body (err m) k w h = nothing refl

  of_id :
      (o : Option ℕ) (message : String) (k : ℕ → World U M O → Conn (World U M O) Json)
      (w : World U M O)
      → ((n : ℕ) → Effect d w (k n w).state)
      → Effect d w (from_id o message k w).state
  of_id none message k w h = nothing refl
  of_id (some n) message k w h = h n

  promised-Effect :
      (e : Endpoint) (r : Request) (w : World U M O)
      → Effect d w (promised d.status (gateway_clients d) e r w).state
  promised-Effect Endpoint.create_user r w =
      of_body r.user_body _ w (λ b. relayed 201 _ _ w (create_user-Effect _ w))
  promised-Effect Endpoint.get_user r w =
      of_id (parse_uint32 r.id) _ _ w (λ n. relayed 200 _ _ w (nothing (user_reads d _ w)))
  promised-Effect Endpoint.get_users r w = relayed 200 _ _ w (nothing (get_users-ReadsOnly d _ w))
  promised-Effect Endpoint.create_menu_item r w =
      of_body r.item_body _ w (λ b. relayed 201 _ _ w (create_menu_item-Effect _ w))
  promised-Effect Endpoint.get_menu_item r w =
      of_id (parse_uint32 r.id) _ _ w (λ n. relayed 200 _ _ w (nothing (menu_reads d _ w)))
  promised-Effect Endpoint.get_menu r w = relayed 200 _ _ w (nothing (get_menu-ReadsOnly d _ w))
  promised-Effect Endpoint.create_order r w =
      of_body r.order_body _ w (λ b. relayed 201 _ _ w (create_order-Effect _ w))
  promised-Effect Endpoint.get_order r w =
      of_id (parse_uint32 r.id) _ _ w (λ n. relayed 200 _ _ w (nothing (get_order-ReadsOnly d _ w)))
  promised-Effect Endpoint.get_orders r w = relayed 200 _ _ w (nothing (get_orders-ReadsOnly d _ w))

  -- In a deployment whose status package and tables meet Rpc.IsStatus and Gorm.IsTable and whose IDs
  -- have 32 bits, while every value can be marshalled: a request to the gateway changes nothing, or
  -- adds one row to one database, and an order only for a user who is there, of menu items that are
  -- there, at their prices.
  pub handle-Effect :
      (marshals : Json → Bool) (all : (v : Json) → marshals v ≡ true) (e : Endpoint) (r : Request)
      (w : World U M O)
      → Effect d w (run (handle d.status (gateway_clients d) marshals e r) w).state
  handle-Effect marshals all e r w =
      rw (handle_relays d.status marshals all (gateway_clients d) e r w) (promised-Effect e r w)
