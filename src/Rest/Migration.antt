-- ===== src/Rest/Migration.antt =====
-- Placing an order with the monolith, beside CreateOrder of the gRPC order service.
use ss2025_web.Rpc.{
  Status, IsStatus, Outcome, returns, fails, panics, invalid_argument, internal, code_of,
}
use ss2025_web.Base.{
  All, ◌<◌, ◌^◌, format_v, Bool-cases, ℕ, Bool, ◌≡◌, refl, ap, ◌∙◌, inl, inr, some, none, List, [],
  ◌∷◌, ◌++◌, map, ok, err, arith, Result-cases,
}
use Prim.Native.String.{String}
use ss2025_web.Gorm.{Time, Table, DbError}
use ss2025_web.Menu.{MenuItem, MenuItemMessage}
use ss2025_web.User.{GetUserResponse}
use ss2025_web.Order.{Order, OrderItem, OrderItemRequest}
use ss2025_web.Order.Server.{OrderServer, menu_item_error, pending_order}
use ss2025_web.Order.Server as OrderServer
use ss2025_web.Http.{Writer, status_of, fresh}
use ss2025_web.Http
use ss2025_web.Http.Handler.{Conn, run}
use ss2025_web.Gateway.{http_status}
use ss2025_web.Rest.{Value, Customer, ItemBody, OrderBody}
use ss2025_web.Rest.Orders.{new_order_item}
use ss2025_web.Rest.Monolith
use ss2025_web.Order.Items.{add_items-priced, add_items-fails}
use ss2025_web.Base.Decimal.{decimal}
use ss2025_web.Rest.Requests.{Fits, IsNarrow, plain_item, plain, order_request, order_request-plain}

-- The services answer about the monolith's rows under IDs of 32 bits: a user or a menu item is found
-- by its service exactly when the monolith's table has it, an item at the same price, and asking
-- changes nothing.
pub record SameRows {S Err : Type 0} (users : Table S Customer) (menu : Table S MenuItem)
    (srv : OrderServer S Err) : Type 0 where
  pub known :
      (i : ℕ) (s : S) (u : Customer)
      → i < 2 ^ 32
      → users.first [] i s ≡ ok u
      → (resp : GetUserResponse) × (srv.user_client.get_user (record { id = i }) s ≡ (ok resp, s))
  pub unknown :
      (i : ℕ) (s : S) (d : DbError)
      → i < 2 ^ 32
      → users.first [] i s ≡ err d
      → (e : Err) × (srv.user_client.get_user (record { id = i }) s ≡ (err e, s))
  pub listed :
      (i : ℕ) (s : S) (m : MenuItem)
      → i < 2 ^ 32
      → menu.first [] i s ≡ ok m
      → (item : MenuItemMessage) × (srv.menu_client.get_menu_item (record { id = i }) s
          ≡ (ok (record { menu_item = some item }), s))
        × (item.price ≡ m.price)
  pub unlisted :
      (i : ℕ) (s : S) (d : DbError)
      → i < 2 ^ 32
      → menu.first [] i s ≡ err d
      → (e : Err) × (srv.menu_client.get_menu_item (record { id = i }) s ≡ (err e, s))

-- The HTTP status for the end of a remote call.
abbrev pub status_for : {Err A : Type 0} → Status Err → Outcome Err A → ℕ
status_for st (returns a) = 201
status_for st (fails e) = elim (code_of st e) [ none ↦ 500 | some c ↦ http_status c ]
status_for st panics = 500

-- One state and the matching status.
pub record Mirrors {S Err A : Type 0} (st : Status Err) (p : Outcome Err A × S) (c : Conn S Value)
    : Type 0 where
  pub state : c.state ≡ p.1
  pub status : status_of c.writer ≡ status_for st p.0

module _ {S Err : Type 0} (st : Status Err) (users : Table S Customer) (menu : Table S MenuItem)
    (srv : OrderServer S Err) (same : SameRows users menu srv) where
  -- Both loops add the same items, or both stop and change nothing.
  data Both (acc : List OrderItem) (items : List ItemBody) (c : Conn S Value) : Type 0 where
    added :
        (out : List OrderItem)
        → Monolith.add_items menu acc items c ≡ (some out, c)
        → OrderServer.add_items st srv acc (map plain_item items) c.state ≡ (returns out, c.state)
        → Both acc items c
    stopped :
        (r : OrderItemRequest) (e : Err)
        → Monolith.add_items menu acc items c
          ≡ (none, record c { writer = Http.error "Menu item not found" 400 c.writer })
        → OrderServer.add_items st srv acc (map plain_item items) c.state
          ≡ (fails (menu_item_error st r e), c.state)
        → Both acc items c

  both :
      (acc : List OrderItem) (items : List ItemBody) (c : Conn S Value)
      → All Fits items
      → Both acc items c
  both acc [] c h = unfold Monolith.add_items in unfold OrderServer.add_items in added acc refl refl
  both acc (item ∷ rest) c ((small, fits), h) =
      elim (Result-cases (menu.first [] item.menu_item_id c.state)) [
        | inl (m, e) ↦
            let (answer, asked, price) = same.listed item.menu_item_id c.state m small e in
            let step =
              add_items-priced st srv acc (plain_item item) (map plain_item rest) c.state answer
                asked
              ∙ ap
                  (λ x.
                    OrderServer.add_items st srv (acc ++ new_order_item item x ∷ [])
                      (map plain_item rest) c.state)
                  price in
            elim (both (acc ++ new_order_item item m.price ∷ []) rest c h) [
              | added out p q ↦ added out (unfold Monolith.add_items in ground arith) (step ∙ q)
              | stopped r d p q ↦ stopped r d (unfold Monolith.add_items in ground arith) (step ∙ q)
            ]
        | inr (d, e) ↦
            let (d', asked) = same.unlisted item.menu_item_id c.state d small e in
            stopped (plain_item item) d' (unfold Monolith.add_items in ground arith)
              (add_items-fails st srv acc (plain_item item) (map plain_item rest) c.state d' asked)
      ]

  module _ (is : IsStatus st) (orders : Table S Order) (rfc3339 : Time → String)
      (marshals : Value → Bool) where
    Mirrors-added :
        (b : OrderBody) (s : S) (u : Customer) (g : GetUserResponse) (out : List OrderItem)
        → users.first [] b.user_id s ≡ ok u
        → srv.user_client.get_user (record { id = b.user_id }) s ≡ (ok g, s)
        → Monolith.add_items menu [] b.items (record { state = s; writer = fresh })
          ≡ (some out, record { state = s; writer = fresh })
        → OrderServer.add_items st srv [] (map plain_item b.items) s ≡ (returns out, s)
        → Mirrors st
            (OrderServer.create_order st srv orders rfc3339 (plain b) s)
            (run (Monolith.create_order users menu orders marshals (ok b)) s)
    unfolding Monolith.create_order OrderServer.create_order
    Mirrors-added b s u g out h k p q =
        elim (Result-cases (orders.create (pending_order b.user_id out) s).0) [
          | inl (o, e) ↦ elim (Bool-cases (marshals (Value.order o))) [
            | inl y ↦ record { state = ground arith; status = ground arith }
            | inr n ↦ record { state = ground arith; status = ground arith }
          ]
          | inr (d, e) ↦ record {
            state = ground arith;
            status = ground (
              arith,
              is.from-errorf internal (format_v "failed to create order: " (orders.error_text d)),
            );
          }
        ]

    Mirrors-stopped :
        (b : OrderBody) (s : S) (u : Customer) (g : GetUserResponse) (r : OrderItemRequest)
        (d : Err)
        → users.first [] b.user_id s ≡ ok u
        → srv.user_client.get_user (record { id = b.user_id }) s ≡ (ok g, s)
        → Monolith.add_items menu [] b.items (record { state = s; writer = fresh })
          ≡ (none, record { state = s; writer = Http.error "Menu item not found" 400 fresh })
        → OrderServer.add_items st srv [] (map plain_item b.items) s
          ≡ (fails (menu_item_error st r d), s)
        → Mirrors st
            (OrderServer.create_order st srv orders rfc3339 (plain b) s)
            (run (Monolith.create_order users menu orders marshals (ok b)) s)
    unfolding Monolith.create_order OrderServer.create_order menu_item_error
    Mirrors-stopped b s u g r d h k p q = record {
      state = ground arith;
      status = ground (
        arith,
        is.from-errorf invalid_argument (
            format_v (format_v "menu item " (format_v (decimal r.menu_item_id) " not found: "))
              (st.text_of d)),
      );
    }

    Mirrors-unknown :
        (b : OrderBody) (s : S) (d : DbError) (e : Err)
        → users.first [] b.user_id s ≡ err d
        → srv.user_client.get_user (record { id = b.user_id }) s ≡ (err e, s)
        → Mirrors st
            (OrderServer.create_order st srv orders rfc3339 (plain b) s)
            (run (Monolith.create_order users menu orders marshals (ok b)) s)
    unfolding Monolith.create_order OrderServer.create_order
    Mirrors-unknown b s d e h k = record {
      state = ground arith;
      status =
          ground
            (arith, is.from-errorf invalid_argument (format_v "user not found: " (st.text_of e)));
    }

    plain-Mirrors :
        (b : OrderBody) (s : S)
        → IsNarrow b
        → Mirrors st
            (OrderServer.create_order st srv orders rfc3339 (plain b) s)
            (run (Monolith.create_order users menu orders marshals (ok b)) s)
    plain-Mirrors b s (small, narrow) = elim (Result-cases (users.first [] b.user_id s)) [
      | inl (u, h) ↦
          let (g, k) = same.known b.user_id s u small h in
          elim (both [] b.items (record { state = s; writer = fresh }) narrow) [
            | added out p q ↦ Mirrors-added b s u g out h k p q
            | stopped r d p q ↦ Mirrors-stopped b s u g r d h k p q
          ]
      | inr (d, h) ↦ let (e, k) = same.unknown b.user_id s d small h in Mirrors-unknown b s d e h k
    ]

    -- While the services answer about the rows of the monolith under IDs of 32 bits and share its table
    -- of orders, and the status package gives back the code of an error, for a body whose IDs are
    -- `uint32` and whose quantities are `int32`: placing an order with the monolith, and CreateOrder of
    -- the gRPC order service for the request that the body's numbers convert to, end in the same state,
    -- and the status of the monolith is the one that stands for the outcome of CreateOrder (201 for a
    -- response, 400 for InvalidArgument, 500 for Internal).
    pub create_order_migrates :
        (b : OrderBody) (s : S)
        → IsNarrow b
        → Mirrors st
            (OrderServer.create_order st srv orders rfc3339 (order_request b) s)
            (run (Monolith.create_order users menu orders marshals (ok b)) s)
    create_order_migrates b s h = rw (order_request-plain b h) (plain-Mirrors b s h)
