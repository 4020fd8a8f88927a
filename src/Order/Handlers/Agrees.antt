-- ===== src/Order/Handlers/Agrees.antt =====
-- The REST handler CreateOrder of the order service beside CreateOrder of its gRPC server.
use ss2025_web.User.{GetUserResponse}
use ss2025_web.Base.{
  ℕ, Bool, Bool-cases, ◌^◌, ◌<◌, ◌≡◌, refl, inl, inr, Option, some, none, List, [], ◌∷◌, ◌++◌, map,
  All, ok, arith, Result-cases, Option-cases, format_v,
}
use Prim.Native.String.{String}
use ss2025_web.Base.Word.{IsInt32, to_u32, int_to_i32, to_u32_small, int_to_i32_small}
use ss2025_web.Base.Decimal.{decimal}
use ss2025_web.Gorm.{Time, Table}
use ss2025_web.Rpc.{Status, IsStatus, Outcome, returns, fails, panics, invalid_argument, internal}
use ss2025_web.Order.{Order, OrderItem, OrderItemRequest, CreateOrderRequest}
use ss2025_web.Order.Server as OrderServer
use ss2025_web.Order.Server.{OrderServer, pending_order, menu_item_error}
use ss2025_web.Order.Handlers.{ItemBody, OrderBody, new_order_item, add_items, create_order}
use ss2025_web.Http
use ss2025_web.Http.{fresh}
use ss2025_web.Http.Handler.{Conn}
use ss2025_web.Http.Serve.{serve, seen}
use ss2025_web.Rest.{Value}
use ss2025_web.Rest.Migration.{status_for}

-- The gRPC request for a body, each number cut to the type of its field in order.proto.
abbrev pub item_request : ItemBody → OrderItemRequest
item_request i = record { menu_item_id = to_u32 i.menu_item_id; quantity = int_to_i32 i.quantity }

abbrev pub order_request : OrderBody → CreateOrderRequest
order_request b = record { user_id = to_u32 b.user_id; items = map item_request b.items }

-- The numbers of a body fit those types.
abbrev Fits : ItemBody → Type 0
Fits i = (i.menu_item_id < 2 ^ 32) × IsInt32 i.quantity

abbrev pub IsNarrow : OrderBody → Type 0
IsNarrow b = (b.user_id < 2 ^ 32) × All Fits b.items

-- Such a body is passed on as it is.
abbrev plain_item : ItemBody → OrderItemRequest
plain_item i = record { menu_item_id = i.menu_item_id; quantity = i.quantity }

abbrev plain : OrderBody → CreateOrderRequest
plain b = record { user_id = b.user_id; items = map plain_item b.items }

item-plain : (i : ItemBody) → Fits i → item_request i ≡ plain_item i
item-plain i (small, fits) =
    cc (to_u32_small i.menu_item_id small, int_to_i32_small i.quantity fits)

items-plain :
    (items : List ItemBody) → All Fits items → map item_request items ≡ map plain_item items
items-plain [] h = refl
items-plain (i ∷ items) (fit, h) = cc (item-plain i fit, items-plain items h)

order_request-plain : (b : OrderBody) → IsNarrow b → order_request b ≡ plain b
order_request-plain b (small, h) = cc (to_u32_small b.user_id small, items-plain b.items h)

-- The status for the end of a remote call, if the procedure does not panic.
abbrev pub expected : {Err A : Type 0} → Status Err → Outcome Err A → Option ℕ
expected st (returns a) = some 201
expected st (fails e) = some (status_for {A = Unit {0}} st (fails e))
expected st panics = none

-- One state, the matching status, and panics together.
pub record Agrees {S Err A : Type 0} (st : Status Err) (p : Outcome Err A × S)
    (c : Outcome (Unit {0}) (Unit {0}) × Conn S Value) : Type 0 where
  pub state : c.1.state ≡ p.1
  pub status : seen c ≡ expected st p.0

module _ {S Err : Type 0} (st : Status Err) (srv : OrderServer S Err) where
  -- Both loops ask the same, and add the same items, stop, or panic.
  data Both (acc : List OrderItem) (items : List ItemBody) (c : Conn S Value) : Type 0 where
    added :
        (out : List OrderItem) (s : S)
        → add_items srv acc items c ≡ (returns out, record c { state = s })
        → OrderServer.add_items st srv acc (map plain_item items) c.state ≡ (returns out, s)
        → Both acc items c
    stopped :
        (r : OrderItemRequest) (e : Err) (s : S)
        → add_items srv acc items c
          ≡ (fails tt, record { state = s; writer = Http.error "Menu item not found" 400 c.writer })
        → OrderServer.add_items st srv acc (map plain_item items) c.state
          ≡ (fails (menu_item_error st r e), s)
        → Both acc items c
    emptied :
        (s : S)
        → add_items srv acc items c ≡ (panics, record c { state = s })
        → OrderServer.add_items st srv acc (map plain_item items) c.state ≡ (panics, s)
        → Both acc items c

  both :
      (acc : List OrderItem) (items : List ItemBody) (c : Conn S Value)
      → All Fits items
      → Both acc items c
  both acc [] c small =
      unfold add_items in unfold OrderServer.add_items in added acc c.state refl refl
  both acc (item ∷ rest) c ((small, _), narrow) =
      let answered = srv.menu_client.get_menu_item (record { id = item.menu_item_id }) c.state in
      let same = to_u32_small item.menu_item_id small in
      elim (Result-cases answered.0) [
        | inl (resp, e) ↦ elim (Option-cases resp.menu_item) [
          | inl n ↦
              emptied answered.1 (unfold add_items in ground (arith, same))
                (unfold OrderServer.add_items in ground arith)
          | inr (m, k) ↦
              elim (both (acc ++ new_order_item item m.price ∷ []) rest
                (record c { state = answered.1 }) narrow) [
                  | added out s p q ↦
                      added out s (unfold add_items in ground (arith, same))
                        (unfold OrderServer.add_items in ground arith)
                  | stopped r d s p q ↦
                      stopped r d s (unfold add_items in ground (arith, same))
                        (unfold OrderServer.add_items in ground arith)
                  | emptied s p q ↦
                      emptied s (unfold add_items in ground (arith, same))
                        (unfold OrderServer.add_items in ground arith)
                ]
        ]
        | inr (d, e) ↦
            stopped (plain_item item) d answered.1 (unfold add_items in ground (arith, same))
              (unfold OrderServer.add_items in ground arith)
      ]

  module _ (is : IsStatus st) (db : Table S Order) (rfc3339 : Time → String)
      (marshals : Value → Bool) where
    Agrees-served :
        (b : OrderBody) (s s1 : S) (g : GetUserResponse)
        → b.user_id < 2 ^ 32
        → srv.user_client.get_user (record { id = b.user_id }) s ≡ (ok g, s1)
        → Both [] b.items (record { state = s1; writer = fresh })
        → Agrees st
            (OrderServer.create_order st srv db rfc3339 (plain b) s)
            (serve (create_order srv db marshals (ok b)) s)
    unfolding create_order OrderServer.create_order
    Agrees-served b s s1 g small h (added out s2 p q) =
        let same = to_u32_small b.user_id small in
        elim (Result-cases (db.create (pending_order b.user_id out) s2).0) [
          | inl (o, e) ↦ elim (Bool-cases (marshals (Value.order o))) [
            | inl y ↦ record { state = ground (arith, same); status = ground (arith, same) }
            | inr n ↦ record { state = ground (arith, same); status = ground (arith, same) }
          ]
          | inr (d, e) ↦ record {
            state = ground (arith, same);
            status = ground (
              arith,
              same,
              is.from-errorf internal (format_v "failed to create order: " (db.error_text d)),
            );
          }
        ]
    Agrees-served b s s1 g small h (stopped r d s2 p q) =
        let same = to_u32_small b.user_id small in
        record {
          state = ground (arith, same);
          status =
              unfold menu_item_error in
              ground (
                arith,
                same,
                is.from-errorf invalid_argument (
                    format_v
                      (format_v "menu item " (format_v (decimal r.menu_item_id) " not found: "))
                      (st.text_of d)),
              );
        }
    Agrees-served b s s1 g small h (emptied s2 p q) =
        let same = to_u32_small b.user_id small in
        record { state = ground (arith, same); status = ground (arith, same) }

    plain-Agrees :
        (b : OrderBody) (s : S)
        → IsNarrow b
        → Agrees st
            (OrderServer.create_order st srv db rfc3339 (plain b) s)
            (serve (create_order srv db marshals (ok b)) s)
    unfolding create_order OrderServer.create_order
    plain-Agrees b s (small, narrow) =
        let answered = srv.user_client.get_user (record { id = b.user_id }) s in
        let same = to_u32_small b.user_id small in
        elim (Result-cases answered.0) [
          | inl (g, e) ↦
              Agrees-served b s answered.1 g small (ground arith)
                (both [] b.items (record { state = answered.1; writer = fresh }) narrow)
          | inr (d, e) ↦ record {
            state = ground (arith, same);
            status = ground (
              arith,
              same,
              is.from-errorf invalid_argument (format_v "user not found: " (st.text_of d)),
            );
          }
        ]

    -- While the status package gives back the code of an error, for a body whose IDs are `uint32` and
    -- whose quantities are `int32`: the REST handler and CreateOrder of the gRPC server, for the request
    -- that the body's numbers convert to, end in the same state whatever the two services and the table
    -- do, panic together at a reply without a menu item, and else the status of the handler is the one
    -- that stands for the outcome of CreateOrder (201 for a response, 400 for InvalidArgument, 500 for
    -- Internal).
    pub create_order-Agrees :
        (b : OrderBody) (s : S)
        → IsNarrow b
        → Agrees st
            (OrderServer.create_order st srv db rfc3339 (order_request b) s)
            (serve (create_order srv db marshals (ok b)) s)
    create_order-Agrees b s h = rw (order_request-plain b h) (plain-Agrees b s h)
