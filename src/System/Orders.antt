-- ===== src/System/Orders.antt =====
-- Orders of the deployed system, beside the rows of the user database and the menu database.
use ss2025_web.Base.{ℕ, ◌≡◌, refl, List, [], ◌∷◌, some, ok, arith, Result-cases, inl, inr}
use Prim.Native.String.{String}
use ss2025_web.Gorm.{Time, Table}
use ss2025_web.Rpc.{Status, returns, dial}
use ss2025_web.User.{User, GetUserResponse}
use ss2025_web.User.Server as UserServer
use ss2025_web.Menu.{MenuItem, MenuItemMessage}
use ss2025_web.Menu.Server as MenuServer
use ss2025_web.Order.{Order, OrderItem, OrderItemRequest, CreateOrderRequest, CreateOrderResponse}
use ss2025_web.Order.Server.{create_order, new_order_item, pending_order}
use ss2025_web.Order.Snapshot.{Snapshots}
use ss2025_web.Order.Create.{create_order_iff}
use ss2025_web.System.Lens.{World}
use ss2025_web.System.{Deployment, users_table, menu_table, orders_table, order_server}
use ss2025_web.System.Safety.{user_reads, menu_reads}

module _ {S Err : Type 0} (st : Status Err) (rfc3339 : Time → String) (lost : Err) where
  pub user_row :
      (db : Table S User) (i : ℕ) (s : S) (resp : GetUserResponse)
      → dial lost (UserServer.get_user st db rfc3339) (record { id = i }) s ≡ (ok resp, s)
      → (u : User) × (db.first [] i s ≡ ok u)
  unfolding UserServer.get_user
  user_row db i s resp h = elim (Result-cases (db.first [] i s)) [
    | inl (u, e) ↦ (u, e)
    | inr (d, e) ↦ absurd (ground arith)
  ]

  pub menu_row :
      (db : Table S MenuItem) (i : ℕ) (s : S) (item : MenuItemMessage)
      → dial lost (MenuServer.get_menu_item st db rfc3339) (record { id = i }) s
        ≡ (ok (record { menu_item = some item }), s)
      → (m : MenuItem) × (db.first [] i s ≡ ok m) × (item.price ≡ m.price)
  unfolding MenuServer.get_menu_item MenuServer.model_to_proto
  menu_row db i s item h = elim (Result-cases (db.first [] i s)) [
    | inl (m, e) ↦ (m, e, ground arith)
    | inr (d, e) ↦ absurd (ground arith)
  ]

module _ {U M O Err : Type 0} (d : Deployment U M O Err) where
  -- The items are those requested, at the prices of the menu database.
  abbrev pub Listed : World U M O → List OrderItemRequest → List OrderItem → Type 0
  Listed w [] [] = Unit
  Listed w (r ∷ rs) (i ∷ is) =
      ((m : MenuItem) × (d.menu.first [] r.menu_item_id w.menu ≡ ok m)
        × (i ≡ new_order_item r m.price))
      × Listed w rs is
  Listed w [] (i ∷ is) = ⊥
  Listed w (r ∷ rs) [] = ⊥

  pub Listed-of_Snapshots :
      (w : World U M O) (rs : List OrderItemRequest) (is : List OrderItem)
      → Snapshots (order_server d) w rs is
      → Listed w rs is
  Listed-of_Snapshots w [] [] h = tt
  Listed-of_Snapshots w (r ∷ rs) (i ∷ is) (p, h) =
      let (m, e, price) =
        menu_row d.status d.rfc3339 d.lost (menu_table d) r.menu_item_id w p.item p.fetched in
      ((m, e, rw (p.stored, price) refl), Listed-of_Snapshots w rs is h)
  Listed-of_Snapshots w [] (i ∷ is) h = absurd h
  Listed-of_Snapshots w (r ∷ rs) [] h = absurd h

  -- A CreateOrder that returns has found the user in the user database and every item in the menu
  -- database, has stored exactly the pending order of these items at the prices of the menu database,
  -- and has left the user database and the menu database alone.
  pub create_order_integrity :
      (req : CreateOrderRequest) (w w' : World U M O) (resp : CreateOrderResponse)
      → create_order d.status (order_server d) (orders_table d) d.rfc3339 req w ≡ (returns resp, w')
      → (u : User) × (items : List OrderItem) × (o : Order) × (d.users.first [] req.user_id w.users
          ≡ ok u)
        × Listed w req.items items
        × (d.orders.create (pending_order req.user_id items) w.orders ≡ (ok o, w'.orders))
        × (w'.users ≡ w.users)
        × (w'.menu ≡ w.menu)
  create_order_integrity req w w' resp h =
      let p =
        (create_order_iff d.status (order_server d) (orders_table d) d.rfc3339 (user_reads d)
            (menu_reads d) req w w' resp).0
          h in
      let (u, known) =
        user_row d.status d.rfc3339 d.lost (users_table d) req.user_id w p.user p.known in
      (
        u,
        p.items,
        p.order,
        known,
        Listed-of_Snapshots w req.items p.items p.priced,
        ground (arith, p.stored),
        ground (arith, p.stored),
        ground (arith, p.stored),
      )
