-- ===== src/Rest/Refines/Rows.antt =====
-- Users, menu items and lists of the monolith, beside the abstract cafe.
use Prim.Native.String.{String}
use mathlib.Core.Path.{subst}
use ss2025_web.Base.{
  ℕ, ◌≡◌, refl, sym, ap, inl, inr, Bool, true, none, some, [], ◌∷◌, map, ok, err, arith,
  Result-cases,
}
use ss2025_web.Base.Decimal.{parse_uint32}
use ss2025_web.Menu.{MenuItem}
use ss2025_web.Menu.RoundTrip as MenuTrip
use ss2025_web.Order.RoundTrip as OrderTrip
use ss2025_web.Http.Handler.{run}
use ss2025_web.Rest.{Value, Customer}
use ss2025_web.Rest.Monolith as Monolith
use ss2025_web.Rest.Cafe.{
  Database, post_user, get_user, get_menu, post_menu, get_orders, customer_account, customer_model,
  users_table, menu_table, visit, IsLawful, IsServed, replied, refused_with,
}
use ss2025_web.Spec.{
  Shop, Call, Seen, malformed, add_user, show_user, add_dish, list_dishes, place, list_orders,
  shows, refused, account, dish, dishes, tab, tabs, Adds, added, failed, Looks, there, missing,
  Lists, unavailable, Places, taken, turned_away, priced, Serves, Line,
}
use ss2025_web.Spec as Spec
use ss2025_web.System.Lens.{World}
use ss2025_web.System.Shelves.{look, shelf_fresh, shelf-create, shelf-keyed}

module _ {U M O : Type 0} (db : Database U M O) (law : IsLawful db) (marshals : Value → Bool)
    (all : (v : Value) → marshals v ≡ true) where
  pub user_posted :
      (u : Customer) (w : World U M O)
      → u.model.deleted_at ≡ none
      → IsServed db (add_user (customer_account u)) w (run (visit db marshals (post_user (ok u))) w)
  unfolding visit Monolith.create_user
  user_posted u w live =
      let w' = ((users_table db).create u w).1 in
      let conn = run (visit db marshals (post_user (ok u))) w in
      elim (Result-cases ((users_table db).create u w).0) [
        | inl (r, e) ↦
            let made : db.users.create u w.users ≡ (ok r, w'.users) = ap (λ x. (x, w'.users)) e in
            let fits = all (Value.customer r) in
            let ended : conn ≡ replied 201 (Value.customer r) w' = ground arith in
            let same = law.users.create_view u r w.users w'.users made in
            subst (IsServed db (add_user (customer_account u)) w) (sym ended) (
              added r.model.id
                  (shelf_fresh db.users [] customer_model customer_account law.users (λ c. c) u r
                    w.users w'.users made)
                  (ap (λ c. shows 201 (account r.model.id c)) same)
                  (shelf-create db.users [] customer_model customer_account law.users (λ c. c) u r
                    w.users w'.users live made),
              refl,
              refl,
            )
        | inr (x, e) ↦
            let made : db.users.create u w.users ≡ (err x, w'.users) = ap (λ r. (r, w'.users)) e in
            let back = law.users.create_atomic u w.users w'.users x made in
            let ended : conn ≡ refused_with (db.users.error_text x) 500 w' = ground arith in
            subst (IsServed db (add_user (customer_account u)) w) (sym ended) (
              failed refl (ap (λ s i. look customer_account (db.users.first [] i s)) back),
              refl,
              refl,
            )
      ]

  pub item_posted :
      (m : MenuItem) (w : World U M O)
      → m.model.deleted_at ≡ none
      → IsServed db (add_dish (MenuTrip.columns m)) w (run (visit db marshals (post_menu (ok m))) w)
  unfolding visit Monolith.create_menu_item
  item_posted m w live =
      let w' = ((menu_table db).create m w).1 in
      let conn = run (visit db marshals (post_menu (ok m))) w in
      elim (Result-cases ((menu_table db).create m w).0) [
        | inl (r, e) ↦
            let made : db.menu.create m w.menu ≡ (ok r, w'.menu) = ap (λ x. (x, w'.menu)) e in
            let fits = all (Value.menu_item r) in
            let ended : conn ≡ replied 201 (Value.menu_item r) w' = ground arith in
            let same = law.menu.create_view m r w.menu w'.menu made in
            subst (IsServed db (add_dish (MenuTrip.columns m)) w) (sym ended) (
              added r.model.id
                  (shelf_fresh db.menu [] MenuTrip.item_model MenuTrip.columns law.menu (λ c. c) m r
                    w.menu w'.menu made)
                  (ap (λ c. shows 201 (dish r.model.id c)) same)
                  (shelf-create db.menu [] MenuTrip.item_model MenuTrip.columns law.menu (λ c. c) m
                    r w.menu w'.menu live made),
              refl,
              refl,
            )
        | inr (x, e) ↦
            let made : db.menu.create m w.menu ≡ (err x, w'.menu) = ap (λ r. (r, w'.menu)) e in
            let back = law.menu.create_atomic m w.menu w'.menu x made in
            let ended : conn ≡ refused_with (db.menu.error_text x) 500 w' = ground arith in
            subst (IsServed db (add_dish (MenuTrip.columns m)) w) (sym ended) (
              failed refl (ap (λ s i. look MenuTrip.columns (db.menu.first [] i s)) back),
              refl,
              refl,
            )
      ]

  pub user_shown :
      (id : String) (i : ℕ) (w : World U M O)
      → parse_uint32 id ≡ some i
      → IsServed db (show_user i) w (run (visit db marshals (get_user id)) w)
  unfolding visit Monolith.get_user
  user_shown id i w h =
      let key = law.by_key id i w.users h in
      let conn = run (visit db marshals (get_user id)) w in
      elim (Result-cases (db.users.first [] i w.users)) [
        | inl (u, e) ↦
            let fits = all (Value.customer u) in
            let ended : conn ≡ replied 200 (Value.customer u) w = ground arith in
            let same = law.users.first_id i w.users u e in
            subst (IsServed db (show_user i) w) (sym ended) (
              there (customer_account u) (ap (look customer_account) e)
                  (ap (λ j. shows 200 (account j (customer_account u))) same),
              refl,
            )
        | inr (x, e) ↦
            let ended : conn ≡ refused_with "User not found" 404 w = ground arith in
            subst (IsServed db (show_user i) w) (sym ended)
              (missing (ap (look customer_account) e) (inl refl), refl)
      ]

  pub menu_listed :
      (w : World U M O) → IsServed db list_dishes w (run (visit db marshals get_menu) w)
  unfolding visit Monolith.get_menu
  menu_listed w =
      let conn = run (visit db marshals get_menu) w in
      elim (Result-cases (db.menu.find [] w.menu)) [
        | inl (rows, e) ↦
            let fits = all (Value.menu_items rows) in
            let ended : conn ≡ replied 200 (Value.menu_items rows) w = ground arith in
            subst (IsServed db list_dishes w) (sym ended) (
              Spec.all (map (λ m. (m.model.id, MenuTrip.columns m)) rows)
                  (λ i v small h.
                    shelf-keyed db.menu [] MenuTrip.item_model MenuTrip.columns law.menu (λ c. c)
                      w.menu rows i v e h)
                  refl,
              refl,
            )
        | inr (x, e) ↦
            let ended : conn ≡ refused_with (db.menu.error_text x) 500 w = ground arith in
            subst (IsServed db list_dishes w) (sym ended) (unavailable refl, refl)
      ]

  pub orders_listed :
      (w : World U M O) → IsServed db list_orders w (run (visit db marshals get_orders) w)
  unfolding visit Monolith.get_orders
  orders_listed w =
      let conn = run (visit db marshals get_orders) w in
      elim (Result-cases (db.orders.find ("OrderItems" ∷ []) w.orders)) [
        | inl (rows, e) ↦
            let fits = all (Value.orders rows) in
            let ended : conn ≡ replied 200 (Value.orders rows) w = ground arith in
            subst (IsServed db list_orders w) (sym ended) (
              Spec.all (map (λ o. (o.model.id, OrderTrip.columns o)) rows)
                  (λ i v small h.
                    shelf-keyed db.orders ("OrderItems" ∷ []) OrderTrip.order_model
                      OrderTrip.columns law.orders (λ c. c) w.orders rows i v e h)
                  refl,
              refl,
            )
        | inr (x, e) ↦
            let ended : conn ≡ refused_with (db.orders.error_text x) 500 w = ground arith in
            subst (IsServed db list_orders w) (sym ended) (unavailable refl, refl)
      ]
