-- ===== src/Order/Process.antt =====
-- `CreateOrder` of order-service/grpc/server.go one remote call at a time, as other requests see it:
-- between two calls anything may happen to the databases.
use ss2025_web.Base.{
  ℕ, zero, suc, ◌+◌, ◌≡◌, refl, sym, ap, ◌∙◌, inl, inr, some, none, List, [], ◌∷◌, ◌++◌, Result, ok,
  err, arith, length, format_v, Result-cases, Option-cases,
}
use Prim.Native.String.{String}
use ss2025_web.Gorm.{Time, Table}
use ss2025_web.Rpc.{
  Status, Outcome, Exec, returns, fails, panics, internal, invalid_argument, ◌>>=◌,
}
use ss2025_web.Menu.{MenuItemMessage, GetMenuItemResponse}
use ss2025_web.Order.{OrderItem, Order, OrderItemRequest, CreateOrderRequest, CreateOrderResponse}
use ss2025_web.Order.Server.{
  OrderServer, new_order_item, pending_order, menu_item_error, model_to_proto, add_items,
  create_order,
}
use ss2025_web.Order.Placing.{save}

-- Where a call of `CreateOrder` stands, with the local variables that are live there. After the last
-- item the next call is the insert.
pub data Pc (Err : Type 0) : Type 0 where
  asking_user : CreateOrderRequest → Pc Err
  asking_item : CreateOrderRequest → List OrderItem → List OrderItemRequest → Pc Err
  finished : Outcome Err CreateOrderResponse → Pc Err

-- A call that is over, and the state that it left.
abbrev pub over : {S Err : Type 0} → Outcome Err CreateOrderResponse × S → Pc Err × S
over (o, s) = (finished o, s)

module _ {S Err : Type 0} (st : Status Err) (srv : OrderServer S Err) (db : Table S Order)
    (rfc3339 : Time → String) where
  -- Up to the next remote call, or the insert, and through it.
  unfoldable pub step : Pc Err → S → Pc Err × S
  step (asking_user req) s =
      let (answer, s') = srv.user_client.get_user (record { id = req.user_id }) s in
      elim answer [
        | ok u ↦ (asking_item req [] req.items, s')
        | err e ↦ (
          finished
              (fails (st.errorf invalid_argument (format_v "user not found: " (st.text_of e)))),
          s',
        )
      ]
  step (asking_item req items (item ∷ rest)) s =
      let (answer, s') = srv.menu_client.get_menu_item (record { id = item.menu_item_id }) s in
      elim answer [
        | ok resp ↦ elim resp.menu_item [
          | some m ↦ (asking_item req (items ++ new_order_item item m.price ∷ []) rest, s')
          | none ↦ (finished panics, s')
        ]
        | err e ↦ (finished (fails (menu_item_error st item e)), s')
      ]
  step (asking_item req items []) s =
      let (created, s') = db.create (pending_order req.user_id items) s in
      elim created [
        | ok o ↦ (finished (returns (record { order = some (model_to_proto rfc3339 o) })), s')
        | err e ↦ (
          finished
              (fails (st.errorf internal (format_v "failed to create order: " (db.error_text e)))),
          s',
        )
      ]
  step (finished o) s = (finished o, s)

  unfoldable pub steps : ℕ → Pc Err → S → Pc Err × S
  steps zero p s = (p, s)
  steps (suc n) p s = let (p', s') = step p s in steps n p' s'

  steps-finished :
      (n : ℕ) (o : Outcome Err CreateOrderResponse) (s : S)
      → steps n (finished o) s ≡ (finished o, s)
  unfolding steps step
  steps-finished zero o s = refl
  steps-finished (suc n) o s = steps-finished n o s

  -- The rest of `CreateOrder` from an item on.
  abbrev pub rest_of :
      CreateOrderRequest → List OrderItem → List OrderItemRequest → Exec S Err CreateOrderResponse
  rest_of req items rest = add_items st srv items rest >>= save st srv db rfc3339 req

  steps-save :
      (req : CreateOrderRequest) (items : List OrderItem) (s : S)
      → steps 1 (asking_item req items []) s ≡ over (rest_of req items [] s)
  unfolding steps step add_items
  steps-save req items s = elim (Result-cases (db.create (pending_order req.user_id items) s).0) [
    | inl (o, e) ↦ ground arith
    | inr (d, e) ↦ ground arith
  ]

  steps_next :
      (n : ℕ) (p p' : Pc Err) (s s' : S) → step p s ≡ (p', s') → steps (suc n) p s ≡ steps n p' s'
  unfolding steps
  steps_next n p p' s s' h = ap (λ q. steps n q.0 q.1) h

  steps_over :
      (n : ℕ) (p : Pc Err) (s s' : S) (o : Outcome Err CreateOrderResponse)
      → step p s ≡ (finished o, s')
      → steps (suc n) p s ≡ (finished o, s')
  steps_over n p s s' o h = steps_next n p (finished o) s s' h ∙ steps-finished n o s'

  -- A step at an item, by the answer of the menu service.
  module _ (req : CreateOrderRequest) (items : List OrderItem) (r : OrderItemRequest)
      (rest : List OrderItemRequest) (s : S) where
    abbrev pub asked : Result Err GetMenuItemResponse × S
    asked = srv.menu_client.get_menu_item (record { id = r.menu_item_id }) s

    pub item_priced :
        (resp : GetMenuItemResponse) (m : MenuItemMessage)
        → asked.0 ≡ ok resp
        → resp.menu_item ≡ some m
        → (step (asking_item req items (r ∷ rest)) s
            ≡ (asking_item req (items ++ new_order_item r m.price ∷ []) rest, asked.1))
          × (rest_of req items (r ∷ rest) s
              ≡ rest_of req (items ++ new_order_item r m.price ∷ []) rest asked.1)
    unfolding step add_items
    item_priced resp m h k = (ground arith, ground arith)

    pub item_empty :
        (resp : GetMenuItemResponse)
        → asked.0 ≡ ok resp
        → resp.menu_item ≡ none
        → (step (asking_item req items (r ∷ rest)) s ≡ (finished panics, asked.1))
          × (rest_of req items (r ∷ rest) s ≡ (panics, asked.1))
    unfolding step add_items
    item_empty resp h k = (ground arith, ground arith)

    pub item_refused :
        (d : Err)
        → asked.0 ≡ err d
        → (step (asking_item req items (r ∷ rest)) s
            ≡ (finished (fails (menu_item_error st r d)), asked.1))
          × (rest_of req items (r ∷ rest) s ≡ (fails (menu_item_error st r d), asked.1))
    unfolding step add_items
    item_refused d h = (ground arith, ground arith)

  steps-rest :
      (req : CreateOrderRequest) (items : List OrderItem) (rest : List OrderItemRequest) (s : S)
      → steps (suc (length rest)) (asking_item req items rest) s ≡ over (rest_of req items rest s)
  steps-rest req items [] s = steps-save req items s
  steps-rest req items (r ∷ rest) s = elim (Result-cases (asked req items r rest s).0) [
    | inl (resp, e) ↦ elim (Option-cases resp.menu_item) [
      | inl n ↦
          let (stepped, rested) = item_empty req items r rest s resp e n in
          steps_over (suc (length rest)) _ s _ panics stepped ∙ sym (ap over rested)
      | inr (m, k) ↦
          let (stepped, rested) = item_priced req items r rest s resp m e k in
          steps_next (suc (length rest)) _ _ s _ stepped
          ∙ steps-rest req (items ++ new_order_item r m.price ∷ []) rest
              (asked req items r rest s).1
          ∙ sym (ap over rested)
    ]
    | inr (d, e) ↦
        let (stepped, rested) = item_refused req items r rest s d e in
        steps_over (suc (length rest)) _ s _ _ stepped ∙ sym (ap over rested)
  ]

  steps_user :
      (req : CreateOrderRequest) (s : S)
      → steps (suc (suc (length req.items))) (asking_user req) s
        ≡ over (create_order st srv db rfc3339 req s)
  unfolding create_order step
  steps_user req s =
      let answered = srv.user_client.get_user (record { id = req.user_id }) s in
      elim (Result-cases answered.0) [
        | inl (u, e) ↦
            steps_next (suc (length req.items)) (asking_user req) (asking_item req [] req.items) s
              answered.1 (ground arith)
            ∙ steps-rest req [] req.items answered.1
            ∙ ap over (ground arith)
        | inr (d, e) ↦
            steps_over (suc (length req.items)) (asking_user req) s answered.1
              (fails (st.errorf invalid_argument (format_v "user not found: " (st.text_of d))))
              (ground arith)
            ∙ ap over (ground arith)
      ]

  -- A call of CreateOrder that runs by itself, whatever the two services and the table do, is over
  -- after two steps and one for each item of the request, and ends in the outcome and the state that
  -- `create_order` gives.
  steps-create_order :
      (req : CreateOrderRequest) (s : S)
      → steps (length req.items + 2) (asking_user req) s
        ≡ over (create_order st srv db rfc3339 req s)
  steps-create_order req s = ap (λ n. steps n (asking_user req) s) (omega arith) ∙ steps_user req s
