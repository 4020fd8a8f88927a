-- ===== src/Rest/Refines/Orders.antt =====
-- Orders of the monolith, beside the abstract cafe.
use mathlib.Core.List.{append-nil, append_assoc}
use mathlib.Core.Path.{subst}
use ss2025_web.Base.{
  ◌≡◌, refl, sym, ap, ◌∙◌, inl, inr, Bool, true, none, some, List, [], ◌∷◌, ◌++◌, map, ok, err,
  arith, Result-cases, Option-cases,
}
use ss2025_web.Gorm.{DbError}
use ss2025_web.Order.{OrderItem}
use ss2025_web.Order.Server.{pending_order}
use ss2025_web.Rest.Orders.{new_order_item}
use ss2025_web.Http
use ss2025_web.Http.{Writer, fresh}
use ss2025_web.Order.RoundTrip as OrderTrip
use ss2025_web.Http.Handler.{Conn, run}
use ss2025_web.Rest.{Value, Customer, ItemBody, OrderBody}
use ss2025_web.Rest.Monolith as Monolith
use ss2025_web.Rest.Cafe.{
  Database, new_order, customer_account, menu_table, orders_table, visit, rows_of, IsLawful,
  body_wish, IsServed, replied, refused_with,
}
use ss2025_web.Spec.{place, shows, tab, added, failed, taken, turned_away, priced, Line, stock}
use ss2025_web.System.Lens.{World}
use ss2025_web.System.Shelves.{look, shelf_fresh, shelf-create}

module _ {U M O : Type 0} (db : Database U M O) where
  -- The loop over the items of a body that are all on the menu makes their lines.
  items_added :
      (acc : List OrderItem) (items : List ItemBody) (w : World U M O) (v : Writer Value)
      (lines : List Line)
      → priced (rows_of db w).menu (map body_wish items) ≡ some lines
      → (is : List OrderItem) × (Monolith.add_items
            (menu_table db)
            acc
            items
            (record { state = w; writer = v })
          ≡ (some (acc ++ is), record { state = w; writer = v }))
        × (map OrderTrip.line is ≡ lines)
  unfolding priced Monolith.add_items
  items_added acc [] w v lines h = (
    [],
    ap (λ l. (some l, record { state = w; writer = v })) (sym (append-nil acc)),
    ground arith,
  )
  items_added acc (i ∷ items) w v lines h =
      elim (Result-cases (db.menu.first [] i.menu_item_id w.menu)) [
        | inl (m, e) ↦ elim (Option-cases (priced (rows_of db w).menu (map body_wish items))) [
          | inl n ↦ absurd (ground arith)
          | inr (rest, k) ↦
              let item = new_order_item i m.price in
              let (is, looped, same) = items_added (acc ++ item ∷ []) items w v rest k in
              let head : lines ≡ OrderTrip.line item ∷ rest = ground arith in
              (
                item ∷ is,
                rw e looped
                    ∙ ap (λ l. (some l, record { state = w; writer = v }))
                        (append_assoc acc (item ∷ []) is),
                cc (head, same),
              )
        ]
        | inr (x, e) ↦ absurd (ground arith)
      ]

  -- It stops at an item that is not on the menu.
  items_stopped :
      (acc : List OrderItem) (items : List ItemBody) (w : World U M O) (v : Writer Value)
      → priced (rows_of db w).menu (map body_wish items) ≡ none
      → Monolith.add_items (menu_table db) acc items (record { state = w; writer = v })
        ≡ (none, record { state = w; writer = Http.error "Menu item not found" 400 v })
  unfolding priced Monolith.add_items
  items_stopped acc [] w v h = absurd (ground arith)
  items_stopped acc (i ∷ items) w v h =
      elim (Result-cases (db.menu.first [] i.menu_item_id w.menu)) [
        | inl (m, e) ↦ elim (Option-cases (priced (rows_of db w).menu (map body_wish items))) [
          | inl n ↦
              let looped = items_stopped (acc ++ new_order_item i m.price ∷ []) items w v n in
              ground arith
          | inr (rest, k) ↦ absurd (ground arith)
        ]
        | inr (x, e) ↦ ground arith
      ]

module _ {U M O : Type 0} (db : Database U M O) (law : IsLawful db) (marshals : Value → Bool)
    (all : (v : Value) → marshals v ≡ true) where
  abbrev order_visit : OrderBody → World U M O → Conn (World U M O) Value
  order_visit b w = run (visit db marshals (new_order (ok b))) w

  abbrev Placed : OrderBody → World U M O → Conn (World U M O) Value → Type 0
  Placed b w conn = IsServed db (place b.user_id (map body_wish b.items)) w conn

  order_unknown :
      (b : OrderBody) (w : World U M O) (x : DbError)
      → db.users.first [] b.user_id w.users ≡ err x
      → Placed b w (order_visit b w)
  unfolding visit Monolith.create_order
  order_unknown b w x e =
      let ended : order_visit b w ≡ refused_with "User not found" 400 w = ground arith in
      subst (Placed b w) (sym ended)
        (turned_away (inl (ap (look customer_account) e)) refl refl, refl, refl)

  order_unpriced :
      (b : OrderBody) (w : World U M O) (u : Customer)
      → db.users.first [] b.user_id w.users ≡ ok u
      → priced (rows_of db w).menu (map body_wish b.items) ≡ none
      → Placed b w (order_visit b w)
  unfolding visit Monolith.create_order
  order_unpriced b w u e n =
      let looped = items_stopped db [] b.items w fresh n in
      let ended : order_visit b w ≡ refused_with "Menu item not found" 400 w = ground arith in
      subst (Placed b w) (sym ended) (turned_away (inr n) refl refl, refl, refl)

  order_saved :
      (b : OrderBody) (w : World U M O) (u : Customer) (is : List OrderItem) (lines : List Line)
      → db.users.first [] b.user_id w.users ≡ ok u
      → priced (rows_of db w).menu (map body_wish b.items) ≡ some lines
      → Monolith.add_items (menu_table db) [] b.items (record { state = w; writer = fresh })
        ≡ (some is, record { state = w; writer = fresh })
      → map OrderTrip.line is ≡ lines
      → Placed b w (order_visit b w)
  unfolding visit Monolith.create_order
  order_saved b w u is lines known able looped same =
      let row = pending_order b.user_id is in
      let w' = ((orders_table db).create row w).1 in
      let t : OrderTrip.columns row ≡ (b.user_id, "pending", lines) =
        ap (λ ls. (b.user_id, "pending", ls)) same in
      elim (Result-cases ((orders_table db).create row w).0) [
        | inl (o, e) ↦
            let made : db.orders.create row w.orders ≡ (ok o, w'.orders) =
              ap (λ r. (r, w'.orders)) e in
            let fits = all (Value.order o) in
            let ended : order_visit b w ≡ replied 201 (Value.order o) w' = ground arith in
            let put : (rows_of db w').orders
                ≡ stock o.model.id (OrderTrip.columns row) (rows_of db w).orders =
              shelf-create db.orders ("OrderItems" ∷ []) OrderTrip.order_model OrderTrip.columns
                law.orders (λ c. c) row o w.orders w'.orders refl made in
            let view = law.orders.create_view row o w.orders w'.orders made ∙ t in
            subst (Placed b w) (sym ended) (
              taken (customer_account u) lines (ap (look customer_account) known) able (
                  added o.model.id
                    (shelf_fresh db.orders ("OrderItems" ∷ []) OrderTrip.order_model
                      OrderTrip.columns law.orders (λ c. c) row o w.orders w'.orders made)
                    (ap (λ c. shows 201 (tab o.model.id c)) view)
                    (put ∙ ap (λ c. stock o.model.id c (rows_of db w).orders) t)),
              refl,
              refl,
            )
        | inr (x, e) ↦
            let made : db.orders.create row w.orders ≡ (err x, w'.orders) =
              ap (λ r. (r, w'.orders)) e in
            let back = law.orders.create_atomic row w.orders w'.orders x made in
            let ended : order_visit b w ≡ refused_with (db.orders.error_text x) 500 w' =
              ground arith in
            subst (Placed b w) (sym ended) (
              taken (customer_account u) lines (ap (look customer_account) known) able (
                  failed refl (
                    ap (λ s i. look OrderTrip.columns (db.orders.first ("OrderItems" ∷ []) i s))
                      back)),
              refl,
              refl,
            )
      ]

  pub order_posted : (b : OrderBody) (w : World U M O) → Placed b w (order_visit b w)
  order_posted b w = elim (Result-cases (db.users.first [] b.user_id w.users)) [
    | inl (u, e) ↦ elim (Option-cases (priced (rows_of db w).menu (map body_wish b.items))) [
      | inl n ↦ order_unpriced b w u e n
      | inr (lines, able) ↦
          let (is, looped, same) = items_added db [] b.items w fresh lines able in
          order_saved b w u is lines e able looped same
    ]
    | inr (x, e) ↦ order_unknown b w x e
  ]
