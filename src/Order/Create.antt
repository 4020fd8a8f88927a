-- ===== src/Order/Create.antt =====
-- The contract of `CreateOrder`.
use Prim.Native.String.{String}
use ss2025_web.Base.{
  ◌≡◌, refl, sym, ap, ◌∙◌, ◌⊎◌, ◌↔◌, ◌≢◌, some, none, List, [], ok, inl, inr, format_v,
}
use ss2025_web.Gorm.{Time, Model, Table, IsTable}
use ss2025_web.Rpc.{
  Status, IsStatus, returns, fails, panics, internal, invalid_argument, code_of, code_of-errorf,
  code_of_eq,
}
use ss2025_web.Rpc.Inversion.{writes-returns, writes-fails, writes-ne-panics}
use ss2025_web.Menu.{GetMenuItemRequest}
use ss2025_web.Clients.{ReadsOnly}
use ss2025_web.Order.{Order, OrderItemRequest, CreateOrderRequest, CreateOrderResponse}
use ss2025_web.Order.Server.{OrderServer, pending_order, create_order, menu_item_error}
use ss2025_web.Order.Items.{add_items_of_Snapshots}
use ss2025_web.Order.Placing.{
  Placed, Ending, placing, unknown_user, unknown_item, nil_item, ending, create_order-save,
}

pub code_of-menu_item_error :
    {Err : Type 0} {st : Status Err}
    → IsStatus st
    → (r : OrderItemRequest) (d : Err) → code_of st (menu_item_error st r d) ≡ some invalid_argument
unfolding menu_item_error
code_of-menu_item_error is r d = code_of-errorf is invalid_argument _

module _ {S Err : Type 0} (st : Status Err) (srv : OrderServer S Err) (db : Table S Order)
    (rfc3339 : Time → String) where
  create_order_of_Placed :
      {req : CreateOrderRequest} {s s' : S} {resp : CreateOrderResponse}
      → Placed st srv db rfc3339 req s s' resp
      → create_order st srv db rfc3339 req s ≡ (returns resp, s')
  create_order_of_Placed {req} {s} p =
      create_order-save st srv db rfc3339 req s p.user p.items p.known
        (add_items_of_Snapshots st srv [] p.items req.items s p.priced)
      ∙ rw (p.stored, p.reply) refl

  module _ (user_reads : ReadsOnly srv.user_client.get_user)
      (menu_reads : ReadsOnly srv.menu_client.get_menu_item) where
    Placed-of_Ending :
        {req : CreateOrderRequest} {s s' : S} {resp : CreateOrderResponse}
        → Ending st srv db rfc3339 req s
        → create_order st srv db rfc3339 req s ≡ (returns resp, s')
        → Placed st srv db rfc3339 req s s' resp
    Placed-of_Ending {req} {s} {s'} {resp} (placing u items known priced k) h =
        let (o, stored, reply) =
          writes-returns _ _ (db.create (pending_order req.user_id items)) s s' resp (sym k ∙ h) in
        record {
          user = u;
          known = known;
          items = items;
          priced = priced;
          order = o;
          stored = stored;
          reply = reply;
        }
    Placed-of_Ending (unknown_user d _ k) h = absurd (cc)
    Placed-of_Ending (unknown_item r d _ k) h = absurd (cc)
    Placed-of_Ending (nil_item r _ k) h = absurd (cc)

    -- While asking the user service and the menu service changes nothing, CreateOrder returns a
    -- response exactly when the user is known, every item of the request is priced by the menu
    -- service, and the database stores the pending order of those items.
    pub create_order_iff :
        (req : CreateOrderRequest) (s s' : S) (resp : CreateOrderResponse)
        → (create_order st srv db rfc3339 req s ≡ (returns resp, s'))
          ↔ Placed st srv db rfc3339 req s s' resp
    create_order_iff req s s' resp = (
      Placed-of_Ending (ending st srv db rfc3339 user_reads menu_reads req s),
      create_order_of_Placed,
    )

    create_order_atomic_of_Ending :
        {V : Type 0} {preloads : List String} {model : Order → Model} {view : Order → V}
        (is : IsStatus st) (lawful : IsTable db preloads model view) (req : CreateOrderRequest)
        (s s' : S) (e : Err)
        → Ending st srv db rfc3339 req s
        → create_order st srv db rfc3339 req s ≡ (fails e, s')
        → (s' ≡ s) × ((code_of st e ≡ some invalid_argument) ⊎ (code_of st e ≡ some internal))
    create_order_atomic_of_Ending is lawful req s s' e (placing u items known priced k) h =
        let (d, refused, is_d) =
          writes-fails _ _ (db.create (pending_order req.user_id items)) s s' e (sym k ∙ h) in
        (
          lawful.create_atomic (pending_order req.user_id items) s s' d refused,
          inr (rw is_d (code_of-errorf is internal _)),
        )
    create_order_atomic_of_Ending is lawful req s s' e (unknown_user d _ k) h =
        let both = sym h ∙ k in
        (cc, inl (code_of_eq is invalid_argument (format_v "user not found: " (st.text_of d)) (cc)))
    create_order_atomic_of_Ending is lawful req s s' e (unknown_item r d _ k) h =
        let both = sym h ∙ k in (cc, inl (ap (code_of st) (cc) ∙ code_of-menu_item_error is r d))
    create_order_atomic_of_Ending is lawful req s s' e (nil_item r _ k) h = absurd (cc)

    -- While asking the user service and the menu service changes nothing, the status package gives
    -- back the code of an error and a failed insert is rolled back: a CreateOrder that fails has
    -- changed nothing, and its error is InvalidArgument or Internal.
    pub create_order_atomic :
        {V : Type 0} {preloads : List String} {model : Order → Model} {view : Order → V}
        (is : IsStatus st) (lawful : IsTable db preloads model view) (req : CreateOrderRequest)
        (s s' : S) (e : Err)
        → create_order st srv db rfc3339 req s ≡ (fails e, s')
        → (s' ≡ s) × ((code_of st e ≡ some invalid_argument) ⊎ (code_of st e ≡ some internal))
    create_order_atomic is lawful req s s' e =
        create_order_atomic_of_Ending is lawful req s s' e
          (ending st srv db rfc3339 user_reads menu_reads req s)

    create_order_safe_of_Ending :
        (menu_full : (q : GetMenuItemRequest) (s : S)
          → (srv.menu_client.get_menu_item q s).0 ≢ ok (record { menu_item = none }))
        (req : CreateOrderRequest) (s : S)
        → Ending st srv db rfc3339 req s
        → (create_order st srv db rfc3339 req s).0 ≢ panics
    create_order_safe_of_Ending menu_full req s (placing u items known priced k) h =
        writes-ne-panics _ _ (db.create (pending_order req.user_id items)) s
          (ap (λ p. p.0) (sym k) ∙ h)
    create_order_safe_of_Ending menu_full req s (unknown_user d _ k) h = cc
    create_order_safe_of_Ending menu_full req s (unknown_item r d _ k) h = cc
    create_order_safe_of_Ending menu_full req s (nil_item r p k) h =
        menu_full (record { id = r.menu_item_id }) s (ap (λ p. p.0) p)

    -- While the menu service answers with an item or an error, CreateOrder never dereferences nil.
    pub create_order_safe :
        (menu_full : (q : GetMenuItemRequest) (s : S)
          → (srv.menu_client.get_menu_item q s).0 ≢ ok (record { menu_item = none }))
        (req : CreateOrderRequest) (s : S)
        → (create_order st srv db rfc3339 req s).0 ≢ panics
    create_order_safe menu_full req s =
        create_order_safe_of_Ending menu_full req s
          (ending st srv db rfc3339 user_reads menu_reads req s)
