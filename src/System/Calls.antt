-- ===== src/System/Calls.antt =====
-- A call of CreateOrder at a remote call or at its insert, beside the databases.
use ss2025_web.Rpc.{internal, invalid_argument, returns, fails, Outcome, panics}
use ss2025_web.Order.Server.{model_to_proto, new_order_item, pending_order}
use ss2025_web.Base.{
  format_v, none, ◌≡◌, refl, sym, inl, inr, some, List, [], ◌∷◌, ◌++◌, map, ok, arith, Result-cases,
  Option-cases,
}
use ss2025_web.Order.{Order, CreateOrderResponse, OrderItem, OrderItemRequest, CreateOrderRequest}
use mathlib.Core.Path.{subst}
use ss2025_web.User.{User}
use ss2025_web.Order.RoundTrip.{line, columns}
use ss2025_web.Order.Process.{
  Pc, asking_user, asking_item, finished, step, item_priced, item_empty, item_refused,
}
use ss2025_web.System.Lens.{World}
use ss2025_web.System.{
  Deployment, order_server, orders_table, user_client, menu_client, users_table, menu_table,
}
use ss2025_web.System.Lawful.{IsLawful, orders_law}
use ss2025_web.System.Safety.{user_reads, menu_reads}
use ss2025_web.System.Orders.{user_row, menu_row}
use ss2025_web.System.Rows.{first_kept}
use ss2025_web.System.Books.{IsSound, OnMenu, OnMenu-Keeps, Keeps, Keeps-refl, add-IsSound}

module _ {U M O Err : Type 0} (d : Deployment U M O Err) where
  -- The order in a response is in the database, under the ID that the database gave it.
  pub record IsStored (w : World U M O) (resp : CreateOrderResponse) : Type 0 where
    pub order : Order
    pub shown : resp ≡ record { order = some (model_to_proto d.rfc3339 order) }
    pub row : Order
    pub found : d.orders.first ("OrderItems" ∷ []) order.model.id w.orders ≡ ok row
    pub same : columns row ≡ columns order

  abbrev pub Answered : World U M O → Outcome Err CreateOrderResponse → Type 0
  Answered w (returns resp) = IsStored w resp
  Answered w (fails e) = Unit
  Answered w panics = Unit

  -- What a call knows of the databases: between the user and the insert, that the user is there and
  -- that the lines so far are on the menu; and once it has returned, that its order is stored.
  abbrev pub Ready : World U M O → Pc Err → Type 0
  Ready w (asking_user req) = Unit
  Ready w (asking_item req items rest) =
      ((u : User) × (d.users.first [] req.user_id w.users ≡ ok u)) × OnMenu d w (map line items)
  Ready w (finished o) = Answered w o

  pub Ready-Keeps : {w w' : World U M O} → Keeps d w w' → (p : Pc Err) → Ready w p → Ready w' p
  Ready-Keeps k (asking_user req) h = tt
  Ready-Keeps k (asking_item req items rest) ((u, e), h) =
      ((u, k.users req.user_id u e), OnMenu-Keeps d k (map line items) h)
  Ready-Keeps k (finished (returns resp)) h = record {
    order = h.order;
    shown = h.shown;
    row = h.row;
    found = k.orders h.order.model.id h.row h.found;
    same = h.same;
  }
  Ready-Keeps k (finished (fails e)) h = tt
  Ready-Keeps k (finished panics) h = tt

  OnMenu-append :
      (w : World U M O) (is : List OrderItem) (i : OrderItem)
      → OnMenu d w (map line is)
      → OnMenu d w (line i ∷ [])
      → OnMenu d w (map line (is ++ i ∷ []))
  OnMenu-append w [] i h k = k
  OnMenu-append w (x ∷ is) i (p, h) k = (p, OnMenu-append w is i h k)

  -- What a step of a call gives.
  pub record Stepped (w : World U M O) (r : Pc Err × World U M O) : Type 0 where
    pub keeps : Keeps d w r.1
    pub sound : IsSound d r.1
    pub ready : Ready r.1 r.0

  -- A step that leaves the databases alone.
  Stepped-read :
      (w w' : World U M O) (p : Pc Err) → IsSound d w → w' ≡ w → Ready w p → Stepped w (p, w')
  Stepped-read w w' p sound e h = record {
    keeps = Keeps-refl d w w' e;
    sound = subst (IsSound d) (sym e) sound;
    ready = subst (λ v. Ready v p) (sym e) h;
  }

  abbrev pub next_of : Pc Err → World U M O → Pc Err × World U M O
  next_of = step d.status (order_server d) (orders_table d) d.rfc3339

  Stepped-user :
      (req : CreateOrderRequest) (w : World U M O)
      → IsSound d w
      → Stepped w (next_of (asking_user req) w)
  unfolding step
  Stepped-user req w sound =
      let answered = (user_client d).get_user (record { id = req.user_id }) w in
      let same = user_reads d (record { id = req.user_id }) w in
      elim (Result-cases answered.0) [
        | inl (resp, e) ↦
            let stepped : next_of (asking_user req) w ≡ (asking_item req [] req.items, answered.1) =
              ground arith in
            subst (Stepped w) (sym stepped) (
              Stepped-read w answered.1 (asking_item req [] req.items) sound same (
                user_row d.status d.rfc3339 d.lost (users_table d) req.user_id w resp
                    (ground arith),
                tt,
              ))
        | inr (m, e) ↦
            let refused : Outcome Err CreateOrderResponse = fails (
              d.status.errorf invalid_argument
                (format_v "user not found: " (d.status.text_of m))) in
            let stepped : next_of (asking_user req) w ≡ (finished refused, answered.1) =
              ground arith in
            subst (Stepped w) (sym stepped)
              (Stepped-read w answered.1 (finished refused) sound same tt)
      ]

  Stepped-item :
      (req : CreateOrderRequest) (items : List OrderItem) (r : OrderItemRequest)
      (rest : List OrderItemRequest) (w : World U M O)
      → IsSound d w
      → Ready w (asking_item req items (r ∷ rest))
      → Stepped w (next_of (asking_item req items (r ∷ rest)) w)
  Stepped-item req items r rest w sound (known, on_menu) =
      let answered = (menu_client d).get_menu_item (record { id = r.menu_item_id }) w in
      let same = menu_reads d (record { id = r.menu_item_id }) w in
      elim (Result-cases answered.0) [
        | inl (resp, e) ↦ elim (Option-cases resp.menu_item) [
          | inl n ↦
              let (stepped, _) =
                item_empty d.status (order_server d) (orders_table d) d.rfc3339 req items r rest w
                  resp e n in
              subst (Stepped w) (sym stepped)
                (Stepped-read w answered.1 (finished panics) sound same tt)
          | inr (m, k) ↦
              let (stepped, _) =
                item_priced d.status (order_server d) (orders_table d) d.rfc3339 req items r rest w
                  resp m e k in
              let (row, there, price) =
                menu_row d.status d.rfc3339 d.lost (menu_table d) r.menu_item_id w m
                  (ground arith) in
              subst (Stepped w) (sym stepped) (
                Stepped-read w answered.1
                  (asking_item req (items ++ new_order_item r m.price ∷ []) rest) sound same
                  (
                    known,
                    OnMenu-append w items (new_order_item r m.price) on_menu
                        ((row, there, price), tt),
                  ))
        ]
        | inr (m, e) ↦
            let (stepped, _) =
              item_refused d.status (order_server d) (orders_table d) d.rfc3339 req items r rest w m
                e in
            subst (Stepped w) (sym stepped) (Stepped-read w answered.1 (finished _) sound same tt)
      ]

  module _ (law : IsLawful d) where
    created-IsStored :
        (m o : Order) (w' : World U M O) (orders : O)
        → m.model.deleted_at ≡ none
        → d.orders.create m orders ≡ (ok o, w'.orders)
        → IsStored w' (record { order = some (model_to_proto d.rfc3339 o) })
    created-IsStored m o w' orders live made =
        let (r, found, _, same) = law.orders.create_first m o orders w'.orders live made in
        record { order = o; shown = refl; row = r; found = found; same = same }

    Stepped-save :
        (req : CreateOrderRequest) (items : List OrderItem) (w : World U M O)
        → IsSound d w
        → Ready w (asking_item req items [])
        → Stepped w (next_of (asking_item req items []) w)
    unfolding step
    Stepped-save req items w sound ((u, known), on_menu) =
        let row = pending_order req.user_id items in
        let w' = ((orders_table d).create row w).1 in
        elim (Result-cases ((orders_table d).create row w).0) [
          | inl (o, e) ↦
              let answer : Outcome Err CreateOrderResponse =
                returns (record { order = some (model_to_proto d.rfc3339 o) }) in
              let stepped : next_of (asking_item req items []) w ≡ (finished answer, w') =
                ground arith in
              let made : d.orders.create row w.orders ≡ (ok o, w'.orders) = ground arith in
              let keeps : Keeps d w w' = record {
                users = λ i u h. h;
                menu = λ i m h. h;
                orders = λ i r h. first_kept law.orders row o r w.orders w'.orders i made h;
              } in
              subst (Stepped w) (sym stepped) (record {
                keeps = keeps;
                sound =
                    add-IsSound d law w w' o row keeps sound
                      (record { user = u; known = known; pending = refl; lines = on_menu }) refl
                      made;
                ready = created-IsStored row o w' w.orders refl made;
              })
          | inr (m, e) ↦
              let failed : Outcome Err CreateOrderResponse = fails (
                d.status.errorf internal
                  (format_v "failed to create order: " (d.orders.error_text m))) in
              let stepped : next_of (asking_item req items []) w ≡ (finished failed, w') =
                ground arith in
              subst (Stepped w) (sym stepped) (
                Stepped-read w w' (finished failed) sound
                  ((orders_law law).create_atomic row w w' m (ground arith)) tt)
        ]

    pub next-Stepped :
        (p : Pc Err) (w : World U M O) → IsSound d w → Ready w p → Stepped w (next_of p w)
    unfolding step
    next-Stepped (asking_user req) w sound h = Stepped-user req w sound
    next-Stepped (asking_item req items (r ∷ rest)) w sound h =
        Stepped-item req items r rest w sound h
    next-Stepped (asking_item req items []) w sound h = Stepped-save req items w sound h
    next-Stepped (finished o) w sound h = Stepped-read w w (finished o) sound refl h
