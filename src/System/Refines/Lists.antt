-- ===== src/System/Refines/Lists.antt =====
-- The endpoints that list, beside the abstract cafe.
use ss2025_web.Base.{
  ◌≡◌, refl, inl, inr, List, [], ◌∷◌, map, ok, err, arith, Result-cases, format_v,
}
use ss2025_web.Gorm.{DbError}
use ss2025_web.Rpc.{code_of-errorf, internal}
use ss2025_web.User.{User, GetUsersResponse}
use ss2025_web.User.Server as UserServer
use ss2025_web.User.RoundTrip as UserTrip
use ss2025_web.Menu.{MenuItem, GetMenuResponse}
use ss2025_web.Menu.Server as MenuServer
use ss2025_web.Menu.RoundTrip as MenuTrip
use ss2025_web.Order.{Order, GetOrdersResponse}
use ss2025_web.Order.Server as OrderServer
use ss2025_web.Order.RoundTrip as OrderTrip
use ss2025_web.Gateway.{Json}
use ss2025_web.Gateway.Promise.{relay}
use ss2025_web.Gateway.Seen.{seen, seen-grpc_error_reply, message_account, message_dish}
use ss2025_web.Spec.{Serves, list_users, list_dishes, list_orders, all, unavailable}
use ss2025_web.System.Lens.{World}
use ss2025_web.System.{Deployment, user_client, menu_client, order_client}
use ss2025_web.System.Lawful.{IsLawful}
use ss2025_web.System.Shelves.{shelf-listed, shop_of, wire}
use ss2025_web.System.Refines.Shown.{shown_row, shown_tab}

module _ {U M O Err : Type 0} (d : Deployment U M O Err) (law : IsLawful d) where
  rows_users :
      (w : World U M O) (rows : List User)
      → d.users.find [] w.users ≡ ok rows
      → (user_client d).get_users (record {}) w
        ≡ (ok (record { users = map (UserServer.model_to_proto d.rfc3339) rows }), w)
  unfolding UserServer.get_users
  rows_users w rows h = ground arith

  no_users :
      (w : World U M O) (x : DbError)
      → d.users.find [] w.users ≡ err x
      → (user_client d).get_users (record {}) w ≡ (
        err (d.status.errorf internal (format_v "failed to get users: " (d.users.error_text x))),
        w,
      )
  unfolding UserServer.get_users
  no_users w x h = ground arith

  pub get_users-Serves :
      (w : World U M O)
      → let c =
          relay d.status 200
            (λ (a : GetUsersResponse). Json.users a.users)
            ((user_client d).get_users (record {}) w) in
        Serves list_users (shop_of d w) (seen c.writer) (shop_of d c.state)
  unfolding UserServer.model_to_proto
  get_users-Serves w = elim (Result-cases (d.users.find [] w.users)) [
    | inl (rows, e) ↦ rw (rows_users w rows e) (
      all (map (λ m. (m.id, message_account m)) (map (UserServer.model_to_proto d.rfc3339) rows))
          (shelf-listed d.users [] UserTrip.user_model UserTrip.columns law.users (λ c. c)
            (UserServer.model_to_proto d.rfc3339) (λ m. (m.id, message_account m)) (λ u. refl)
            w.users rows e)
          refl,
      refl,
    )
    | inr (x, e) ↦ rw (no_users w x e) (
      unavailable
          (seen-grpc_error_reply d.status _ internal (code_of-errorf law.status internal _)),
      refl,
    )
  ]

  rows_menu :
      (w : World U M O) (rows : List MenuItem)
      → d.menu.find [] w.menu ≡ ok rows
      → (menu_client d).get_menu (record {}) w
        ≡ (ok (record { menu_items = map (MenuServer.model_to_proto d.rfc3339) rows }), w)
  unfolding MenuServer.get_menu
  rows_menu w rows h = ground arith

  no_menu :
      (w : World U M O) (x : DbError)
      → d.menu.find [] w.menu ≡ err x
      → (menu_client d).get_menu (record {}) w ≡ (
        err (d.status.errorf internal (format_v "failed to get menu: " (d.menu.error_text x))),
        w,
      )
  unfolding MenuServer.get_menu
  no_menu w x h = ground arith

  pub get_menu-Serves :
      (w : World U M O)
      → let c =
          relay d.status 200
            (λ (a : GetMenuResponse). Json.menu_items a.menu_items)
            ((menu_client d).get_menu (record {}) w) in
        Serves list_dishes (shop_of d w) (seen c.writer) (shop_of d c.state)
  unfolding MenuServer.model_to_proto
  get_menu-Serves w = elim (Result-cases (d.menu.find [] w.menu)) [
    | inl (rows, e) ↦ rw (rows_menu w rows e) (
      all (map (λ m. (m.id, message_dish m)) (map (MenuServer.model_to_proto d.rfc3339) rows))
          (shelf-listed d.menu [] MenuTrip.item_model MenuTrip.columns law.menu (λ c. c)
            (MenuServer.model_to_proto d.rfc3339) (λ m. (m.id, message_dish m)) (λ u. refl) w.menu
            rows e)
          refl,
      refl,
    )
    | inr (x, e) ↦ rw (no_menu w x e) (
      unavailable
          (seen-grpc_error_reply d.status _ internal (code_of-errorf law.status internal _)),
      refl,
    )
  ]

  rows_orders :
      (w : World U M O) (rows : List Order)
      → d.orders.find ("OrderItems" ∷ []) w.orders ≡ ok rows
      → (order_client d).get_orders (record {}) w
        ≡ (ok (record { orders = map (OrderServer.model_to_proto d.rfc3339) rows }), w)
  unfolding OrderServer.get_orders
  rows_orders w rows h = ground arith

  no_orders :
      (w : World U M O) (x : DbError)
      → d.orders.find ("OrderItems" ∷ []) w.orders ≡ err x
      → (order_client d).get_orders (record {}) w ≡ (
        err (d.status.errorf internal (format_v "failed to get orders: " (d.orders.error_text x))),
        w,
      )
  unfolding OrderServer.get_orders
  no_orders w x h = ground arith

  pub get_orders-Serves :
      (w : World U M O)
      → let c =
          relay d.status 200
            (λ (a : GetOrdersResponse). Json.orders a.orders)
            ((order_client d).get_orders (record {}) w) in
        Serves list_orders (shop_of d w) (seen c.writer) (shop_of d c.state)
  get_orders-Serves w = elim (Result-cases (d.orders.find ("OrderItems" ∷ []) w.orders)) [
    | inl (rows, e) ↦ rw (rows_orders w rows e) (
      all (map shown_row (map (OrderServer.model_to_proto d.rfc3339) rows))
          (shelf-listed d.orders ("OrderItems" ∷ []) OrderTrip.order_model OrderTrip.columns
            law.orders wire (OrderServer.model_to_proto d.rfc3339) shown_row (shown_tab d.rfc3339)
            w.orders rows e)
          refl,
      refl,
    )
    | inr (x, e) ↦ rw (no_orders w x e) (
      unavailable
          (seen-grpc_error_reply d.status _ internal (code_of-errorf law.status internal _)),
      refl,
    )
  ]
