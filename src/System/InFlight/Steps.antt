-- ===== src/System/InFlight/Steps.antt =====
-- The steps of a call of CreateOrder, beside the abstract cafe.
use mathlib.Core.List.{append_assoc}
use mathlib.Core.Path.{subst}
use ss2025_web.Base.{
  ◌≡◌, refl, sym, ap, ◌∙◌, inl, inr, ◌⊎◌, none, some, List, [], ◌∷◌, ◌++◌, map, ok, err, arith,
  Result-cases, format_v,
}
use ss2025_web.Rpc.{returns, fails, code_of, code_of-errorf, internal, invalid_argument}
use ss2025_web.User.Server as UserServer
use ss2025_web.User.RoundTrip as UserTrip
use ss2025_web.Menu.Server as MenuServer
use ss2025_web.Order.{OrderItem, OrderItemRequest, CreateOrderRequest, CreateOrderResponse}
use ss2025_web.Order.Server.{new_order_item, pending_order, menu_item_error, model_to_proto}
use ss2025_web.Order.Create.{code_of-menu_item_error}
use ss2025_web.Order.Process.{Pc, asking_user, asking_item, finished, step}
use ss2025_web.Order.RoundTrip.{InRange, line}
use ss2025_web.Gateway.Seen.{seen-grpc_error_reply}
use ss2025_web.Spec.{failed, taken, turned_away, priced, Session, closed}
use ss2025_web.System.Lens.{World}
use ss2025_web.System.{Deployment, users_table, menu_table, orders_table}
use ss2025_web.System.Answers.{row_user, row_item, missing_user, missing_item, item_price}
use ss2025_web.System.Lawful.{IsLawful, orders_law}
use ss2025_web.System.Shelves.{shop_of, look, same_users, same_menu, same_orders}
use ss2025_web.System.Calls.{next_of}
use ss2025_web.System.Refines.Priced.{request_wish}
use ss2025_web.System.Refines.Orders.{stored_call}
use ss2025_web.System.InFlight.{
  InFlight, IsStep, placed, one_call, more_priced, unpriced, all_priced, wired,
}

module _ {U M O Err : Type 0} (d : Deployment U M O Err) (law : IsLawful d) where
  -- A call that is refused.
  refused_step :
      (req : CreateOrderRequest) (w : World U M O) (e : Err)
      → code_of d.status e ≡ some invalid_argument
      → ((shop_of d w).users req.user_id ≡ none)
        ⊎ (priced (shop_of d w).menu (map request_wish req.items) ≡ none)
      → Session (shop_of d w) (placed d req (fails e)) (shop_of d w)
  refused_step req w e code why =
      one_call d req (fails e) w w
        (turned_away why (seen-grpc_error_reply d.status e invalid_argument code) refl, refl, refl)

  user-IsStep :
      (req : CreateOrderRequest) (w : World U M O)
      → InRange req
      → IsStep d (asking_user req) w (next_of d (asking_user req) w)
  unfolding step priced
  user-IsStep req w range = elim (Result-cases (d.users.first [] req.user_id w.users)) [
    | inl (u, e) ↦
        let row = row_user d.status d.rfc3339 d.lost (users_table d) req.user_id w u e in
        let stepped : next_of d (asking_user req) w ≡ (asking_item req [] req.items, w) =
          ground (arith, row) in
        subst (IsStep d (asking_user req) w) (sym stepped)
          (closed, (range, (UserTrip.columns u, ap (look _) e), ([], refl, refl)))
    | inr (x, e) ↦
        let row = missing_user d.status d.rfc3339 d.lost (users_table d) req.user_id w x e in
        let m = UserServer.get_user_error d.status (users_table d) d.rfc3339 x in
        let failure =
          d.status.errorf invalid_argument (format_v "user not found: " (d.status.text_of m)) in
        let stepped : next_of d (asking_user req) w ≡ (finished (fails failure), w) =
          ground (arith, row) in
        subst (IsStep d (asking_user req) w) (sym stepped) (
          refused_step req w failure (code_of-errorf law.status invalid_argument _)
              (inl (ap (look _) e)),
          tt,
        )
  ]

  item-IsStep :
      (req : CreateOrderRequest) (items : List OrderItem) (r : OrderItemRequest)
      (rest : List OrderItemRequest) (w : World U M O)
      → InFlight {Err = Err} (shop_of d w) (asking_item req items (r ∷ rest))
      → IsStep d
          (asking_item req items (r ∷ rest))
          w
          (next_of d (asking_item req items (r ∷ rest)) w)
  unfolding step
  item-IsStep req items r rest w (range, known, (done, split, able)) =
      elim (Result-cases (d.menu.first [] r.menu_item_id w.menu)) [
        | inl (m, e) ↦
            let row = row_item d.status d.rfc3339 d.lost (menu_table d) r.menu_item_id w m e in
            let more = items ++ new_order_item r m.price ∷ [] in
            let stepped : next_of d (asking_item req items (r ∷ rest)) w
                ≡ (asking_item req more rest, w) =
              ground (arith, row, item_price d.rfc3339 m) in
            subst (IsStep d (asking_item req items (r ∷ rest)) w) (sym stepped) (
              closed,
              (
                range,
                known,
                (
                  done ++ r ∷ [],
                  split ∙ sym (append_assoc done (r ∷ []) rest),
                  more_priced d w done items r m able (ap (look _) e),
                ),
              ),
            )
        | inr (x, e) ↦
            let row = missing_item d.status d.rfc3339 d.lost (menu_table d) r.menu_item_id w x e in
            let failure =
              menu_item_error d.status r
                (MenuServer.get_menu_item_error d.status (menu_table d) d.rfc3339 x) in
            let stepped : next_of d (asking_item req items (r ∷ rest)) w
                ≡ (finished (fails failure), w) =
              ground (arith, row) in
            subst (IsStep d (asking_item req items (r ∷ rest)) w) (sym stepped) (
              refused_step req w failure (code_of-menu_item_error law.status r _)
                  (inr (unpriced d w req done r rest split (ap (look _) e))),
              tt,
            )
      ]

  save-IsStep :
      (req : CreateOrderRequest) (items : List OrderItem) (w : World U M O)
      → InFlight {Err = Err} (shop_of d w) (asking_item req items [])
      → IsStep d (asking_item req items []) w (next_of d (asking_item req items []) w)
  unfolding step
  save-IsStep req items w (range, (a, known), (done, split, able)) =
      let row = pending_order req.user_id items in
      let w' = ((orders_table d).create row w).1 in
      let asked = all_priced d w req done items split able in
      elim (Result-cases ((orders_table d).create row w).0) [
        | inl (o, e) ↦
            let made : d.orders.create row w.orders ≡ (ok o, w'.orders) =
              ap (λ r. (r, w'.orders)) e in
            let resp : CreateOrderResponse = record { order = some (model_to_proto d.rfc3339 o) } in
            let stepped : next_of d (asking_item req items []) w ≡ (finished (returns resp), w') =
              ground arith in
            subst (IsStep d (asking_item req items []) w) (sym stepped) (
              one_call d req (returns resp) w w' (
                taken a (map line items) known asked (
                    stored_call d law req w w' items (req.user_id, "pending", map line items) o
                      (wired d w req items range asked) made),
                refl,
                refl,
              ),
              tt,
            )
        | inr (x, e) ↦
            let made : (orders_table d).create row w ≡ (err x, w') = ap (λ r. (r, w')) e in
            let back = (orders_law law).create_atomic row w w' x made in
            let failure =
              d.status.errorf internal
                (format_v "failed to create order: " (d.orders.error_text x)) in
            let stepped : next_of d (asking_item req items []) w ≡ (finished (fails failure), w') =
              ground arith in
            subst (IsStep d (asking_item req items []) w) (sym stepped) (
              one_call d req (fails failure) w w' (
                taken a (map line items) known asked (
                    failed
                      (seen-grpc_error_reply d.status failure internal
                        (code_of-errorf law.status internal _))
                      (same_orders d w w' (ap (λ v. v.orders) back))),
                same_users d w w' (ap (λ v. v.users) back),
                same_menu d w w' (ap (λ v. v.menu) back),
              ),
              tt,
            )
      ]

  pub next-IsStep :
      (p : Pc Err) (w : World U M O) → InFlight (shop_of d w) p → IsStep d p w (next_of d p w)
  unfolding step
  next-IsStep (asking_user req) w h = user-IsStep req w h
  next-IsStep (asking_item req items (r ∷ rest)) w h = item-IsStep req items r rest w h
  next-IsStep (asking_item req items []) w h = save-IsStep req items w h
  next-IsStep (finished o) w h = (closed, tt)
