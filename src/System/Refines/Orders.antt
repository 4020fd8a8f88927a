-- ===== src/System/Refines/Orders.antt =====
-- Orders that are placed, beside the abstract cafe.
use ss2025_web.Base.{
  ◌≡◌, refl, ap, ◌∙◌, inl, inr, ◌⊎◌, none, some, List, [], ◌∷◌, map, ok, err, arith, Result-cases,
  Option-cases, format_v,
}
use ss2025_web.Base.Word.{to_u32_small}
use ss2025_web.Rpc.{returns, fails, code_of, code_of-errorf, internal, invalid_argument}
use ss2025_web.User.{User}
use ss2025_web.Order.{Order, OrderItem, CreateOrderRequest, CreateOrderResponse}
use ss2025_web.Order.Server.{pending_order, model_to_proto, menu_item_error, create_order}
use ss2025_web.Order.Items.{add_items_of_Snapshots}
use ss2025_web.Order.Placing.{
  save, create_order-save, create_order-unknown_user, create_order-refused,
}
use ss2025_web.Order.Create.{code_of-menu_item_error}
use ss2025_web.Order.RoundTrip.{InRange, line, columns, order_model}
use ss2025_web.Http.Reply.{json_reply}
use ss2025_web.Gateway.{Json}
use ss2025_web.Gateway.Promise.{relay, grpc_error_reply}
use ss2025_web.Gateway.Seen.{seen, seen-grpc_error_reply}
use ss2025_web.Spec.{
  stock, shows, Adds, added, failed, taken, turned_away, Serves, place, tab, priced, Tab, Line,
}
use ss2025_web.System.Lens.{World}
use ss2025_web.System.{Deployment, order_client, order_server, users_table, orders_table}
use ss2025_web.System.Lawful.{IsLawful, orders_law}
use ss2025_web.System.Shelves.{
  shelf_fresh, shelf-create, same_users, same_menu, same_orders, shop_of, look, wire, wire_line,
}
use ss2025_web.System.Orders.{Listed}
use ss2025_web.System.Answers.{row_user, missing_user, Snapshots-of_Listed}
use ss2025_web.System.Walkthrough.{dial_returns, dial_fails}
use ss2025_web.System.Refines.Priced.{
  request_wish, Listed-of_priced, add_items_unpriced, wire_lines,
}
use ss2025_web.System.Refines.Shown.{shown_order}

module _ {U M O Err : Type 0} (d : Deployment U M O Err) (law : IsLawful d) where
  abbrev created : CreateOrderResponse → Json
  created a = Json.order a.order

  -- The call, by how the procedure ends.
  relay_returns :
      (q : CreateOrderRequest) (w w' : World U M O) (a : CreateOrderResponse)
      → create_order d.status (order_server d) (orders_table d) d.rfc3339 q w ≡ (returns a, w')
      → relay d.status 201 created ((order_client d).create_order q w)
        ≡ record { state = w'; writer = json_reply 201 (created a) }
  relay_returns q w w' a h = ap (relay d.status 201 created) (
      dial_returns d.lost (create_order d.status (order_server d) (orders_table d) d.rfc3339) q w w'
        a h)

  relay_fails :
      (q : CreateOrderRequest) (w w' : World U M O) (e : Err)
      → create_order d.status (order_server d) (orders_table d) d.rfc3339 q w ≡ (fails e, w')
      → relay d.status 201 created ((order_client d).create_order q w)
        ≡ record { state = w'; writer = grpc_error_reply d.status e }
  relay_fails q w w' e h = ap (relay d.status 201 created) (
      dial_fails d.lost (create_order d.status (order_server d) (orders_table d) d.rfc3339) q w w' e
        h)

  abbrev Called : CreateOrderRequest → World U M O → Type 0
  Called q w =
      let c = relay d.status 201 created ((order_client d).create_order q w) in
      Serves (place q.user_id (map request_wish q.items)) (shop_of d w) (seen c.writer)
        (shop_of d c.state)

  refused_call :
      (q : CreateOrderRequest) (w : World U M O) (e : Err)
      → create_order d.status (order_server d) (orders_table d) d.rfc3339 q w ≡ (fails e, w)
      → code_of d.status e ≡ some invalid_argument
      → ((shop_of d w).users q.user_id ≡ none)
        ⊎ (priced (shop_of d w).menu (map request_wish q.items) ≡ none)
      → Called q w
  refused_call q w e h code why =
      rw (relay_fails q w w e h)
        (turned_away why (seen-grpc_error_reply d.status e invalid_argument code) refl, refl, refl)

  -- The row of an order in range is shown as it is stored.
  wired :
      (q : CreateOrderRequest) (w : World U M O) (is : List OrderItem) (lines : List Line)
      → InRange q
      → Listed d w q.items is
      → map line is ≡ lines
      → wire (columns (pending_order q.user_id is)) ≡ (q.user_id, "pending", lines)
  wired q w is lines (small, range) listed same =
      ap (λ u. (u, "pending", map wire_line (map line is))) (to_u32_small q.user_id small)
      ∙ ap (λ ls. (q.user_id, "pending", ls)) (wire_lines d w q.items is range listed ∙ same)

  pub stored_call :
      (q : CreateOrderRequest) (w w' : World U M O) (is : List OrderItem) (t : Tab) (o : Order)
      → wire (columns (pending_order q.user_id is)) ≡ t
      → d.orders.create (pending_order q.user_id is) w.orders ≡ (ok o, w'.orders)
      → Adds tab t
          (shop_of d w).orders
          (seen (json_reply 201 (Json.order (some (model_to_proto d.rfc3339 o)))))
          (shop_of d w').orders
  stored_call q w w' is t o wired made =
      let row = pending_order q.user_id is in
      let small = law.order_ids row o w.orders w'.orders made in
      let same = law.orders.create_view row o w.orders w'.orders made in
      added o.model.id
        (shelf_fresh d.orders ("OrderItems" ∷ []) order_model columns law.orders wire row o w.orders
          w'.orders made)
        (shown_order d.rfc3339 201 o small
          ∙ ap (λ c. shows 201 (tab o.model.id c)) (ap wire same ∙ wired))
        (shelf-create d.orders ("OrderItems" ∷ []) order_model columns law.orders wire row o
            w.orders w'.orders refl made
          ∙ ap (λ c. stock o.model.id c (shop_of d w).orders) wired)

  placed_call :
      (q : CreateOrderRequest) (w : World U M O) (u : User) (is : List OrderItem)
      (lines : List Line)
      → InRange q
      → d.users.first [] q.user_id w.users ≡ ok u
      → priced (shop_of d w).menu (map request_wish q.items) ≡ some lines
      → Listed d w q.items is
      → map line is ≡ lines
      → create_order d.status (order_server d) (orders_table d) d.rfc3339 q w
        ≡ save d.status (order_server d) (orders_table d) d.rfc3339 q is w
      → Called q w
  placed_call q w u is lines range known able listed same h =
      let row = pending_order q.user_id is in
      let w' = ((orders_table d).create row w).1 in
      elim (Result-cases ((orders_table d).create row w).0) [
        | inl (o, e) ↦
            let made : d.orders.create row w.orders ≡ (ok o, w'.orders) =
              ap (λ r. (r, w'.orders)) e in
            let resp : CreateOrderResponse = record { order = some (model_to_proto d.rfc3339 o) } in
            let ended : save d.status (order_server d) (orders_table d) d.rfc3339 q is w
                ≡ (returns resp, w') =
              ground arith in
            rw (relay_returns q w w' resp (h ∙ ended)) (
              taken _ lines (ap (look _) known) able (
                  stored_call q w w' is (q.user_id, "pending", lines) o
                    (wired q w is lines range listed same) made),
              refl,
              refl,
            )
        | inr (x, e) ↦
            let made : (orders_table d).create row w ≡ (err x, w') = ap (λ r. (r, w')) e in
            let back = (orders_law law).create_atomic row w w' x made in
            let failure =
              d.status.errorf internal
                (format_v "failed to create order: " (d.orders.error_text x)) in
            let ended : save d.status (order_server d) (orders_table d) d.rfc3339 q is w
                ≡ (fails failure, w') =
              ground arith in
            rw (relay_fails q w w' failure (h ∙ ended)) (
              taken _ lines (ap (look _) known) able (
                  failed
                    (seen-grpc_error_reply d.status failure internal
                      (code_of-errorf law.status internal _))
                    (same_orders d w w' (ap (λ v. v.orders) back))),
              same_users d w w' (ap (λ v. v.users) back),
              same_menu d w w' (ap (λ v. v.menu) back),
            )
      ]

  pub create_order-Serves : (q : CreateOrderRequest) (w : World U M O) → InRange q → Called q w
  create_order-Serves q w range = elim (Result-cases (d.users.first [] q.user_id w.users)) [
    | inl (u, e) ↦
        let known = row_user d.status d.rfc3339 d.lost (users_table d) q.user_id w u e in
        elim (Option-cases (priced (shop_of d w).menu (map request_wish q.items))) [
          | inl n ↦
              let (r, x, stopped) = add_items_unpriced d w [] q.items n in
              refused_call q w (menu_item_error d.status r x)
                (create_order-refused d.status (order_server d) (orders_table d) d.rfc3339 q w _ _
                  known stopped)
                (code_of-menu_item_error law.status r x) (inr n)
          | inr (lines, able) ↦
              let (is, listed, same) = Listed-of_priced d w q.items lines able in
              placed_call q w u is lines range e able listed same (
                create_order-save d.status (order_server d) (orders_table d) d.rfc3339 q w _ is
                  known
                  (add_items_of_Snapshots d.status (order_server d) [] is q.items w
                    (Snapshots-of_Listed d w q.items is listed)))
        ]
    | inr (x, e) ↦
        let unknown = missing_user d.status d.rfc3339 d.lost (users_table d) q.user_id w x e in
        refused_call q w _
          (create_order-unknown_user d.status (order_server d) (orders_table d) d.rfc3339 q w _
            unknown)
          (code_of-errorf law.status invalid_argument _) (inl (ap (look _) e))
  ]
