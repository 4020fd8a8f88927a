-- ===== src/Order/RoundTrip.antt =====
-- CreateOrder followed by GetOrder, of order-service/grpc/server.go.
use Prim.Native.String.{String}
use ss2025_web.Base.{ℕ, ◌^◌, ◌<◌, ◌≡◌, refl, ap, ◌∙◌, some, List, [], ◌∷◌, map, All, ok}
use ss2025_web.Base.Word.{ℤ, Float64, IsInt32, to_u32, to_u32-lt, to_u32_small, int_to_i32_small}
use ss2025_web.Gorm.{Time, Model, Table, IsTable}
use ss2025_web.Rpc.{Status, returns}
use ss2025_web.Clients.{ReadsOnly}
use ss2025_web.Order.{
  OrderItem, Order, OrderItemMessage, OrderMessage, OrderItemRequest, CreateOrderRequest,
  CreateOrderResponse,
}
use ss2025_web.Order.Server.{
  OrderServer, pending_order, item_to_proto, create_order, get_order, model_to_proto,
}
use ss2025_web.Order.Snapshot.{Snapshots}
use ss2025_web.Order.Create.{create_order_iff}

-- What an item says, but for its IDs and times.
abbrev pub Line : Type 0
Line = ℕ × ℤ × Float64

abbrev pub line : OrderItem → Line
line i = (i.menu_item_id, i.quantity, i.price)

abbrev pub message_line : OrderItemMessage → Line
message_line i = (i.menu_item_id, i.quantity, i.price)

abbrev pub order_id : Order → ℕ
order_id o = o.model.id

abbrev pub order_model : Order → Model
order_model o = o.model

-- The columns of an order that the services set.
abbrev pub columns : Order → ℕ × String × List Line
columns o = (o.user_id, o.status, map line o.order_items)

-- The numbers of the request are those of its protobuf types.
abbrev pub InRange : CreateOrderRequest → Type 0
InRange req =
    (req.user_id < 2 ^ 32) × All (λ r. (r.menu_item_id < 2 ^ 32) × IsInt32 r.quantity) req.items

abbrev Fits : Line → Type 0
Fits (i, q, _) = (i < 2 ^ 32) × IsInt32 q

message_lines :
    (rfc3339 : Time → String) (is : List OrderItem)
    → All Fits (map line is)
    → map message_line (map (item_to_proto rfc3339) is) ≡ map line is
message_lines rfc3339 [] h = refl
message_lines rfc3339 (i ∷ is) ((p, q), h) =
    cc (to_u32_small i.menu_item_id p, int_to_i32_small i.quantity q, message_lines rfc3339 is h)

module _ {S Err : Type 0} (srv : OrderServer S Err) (s : S) where
  Snapshots-Fits :
      (rs : List OrderItemRequest) (is : List OrderItem)
      → All (λ r. (r.menu_item_id < 2 ^ 32) × IsInt32 r.quantity) rs
      → Snapshots srv s rs is
      → All Fits (map line is)
  Snapshots-Fits [] [] h k = tt
  Snapshots-Fits (r ∷ rs) (i ∷ is) (f, h) (p, k) = (rw p.stored f, Snapshots-Fits rs is h k)
  Snapshots-Fits [] (i ∷ is) h k = absurd k
  Snapshots-Fits (r ∷ rs) [] h k = absurd k

-- The IDs that the table hands out are numbers of 32 bits.
abbrev pub IdsFit : {S : Type 0} → Table S Order → Type 0
IdsFit {S} db = (m m' : Order) (s s' : S) → db.create m s ≡ (ok m', s') → m'.model.id < 2 ^ 32

-- A message shows a pending order of these items.
pub record Shows (req : CreateOrderRequest) (items : List OrderItem) (msg : OrderMessage)
    : Type 0 where
  pub user_id : msg.user_id ≡ req.user_id
  pub status : msg.status ≡ "pending"
  pub lines : map message_line msg.order_items ≡ map line items

module _ {S Err : Type 0} (st : Status Err) (srv : OrderServer S Err) (db : Table S Order)
    (rfc3339 : Time → String) where
  Shows-of_columns :
      (req : CreateOrderRequest) (items : List OrderItem) (o : Order) (s : S)
      → InRange req
      → Snapshots srv s req.items items
      → columns o ≡ columns (pending_order req.user_id items)
      → Shows req items (model_to_proto rfc3339 o)
  unfolding model_to_proto
  Shows-of_columns req items o s (small, fits) priced e =
      let same = ap (λ c. c.2) e in
      record {
        user_id = ap (λ c. to_u32 c.0) e ∙ to_u32_small req.user_id small;
        status = ap (λ c. c.1) e;
        lines =
            message_lines rfc3339 o.order_items
              (rw same (Snapshots-Fits srv s req.items items fits priced))
            ∙ same;
      }

  module _ (user_reads : ReadsOnly srv.user_client.get_user)
      (menu_reads : ReadsOnly srv.menu_client.get_menu_item)
      (lawful : IsTable db ("OrderItems" ∷ []) order_model columns) (ids : IdsFit db) where
    -- While asking the user service and the menu service changes nothing, the table of orders
    -- meets Gorm.IsTable and hands out IDs of 32 bits, and the numbers of the request fit
    -- their protobuf types: the order that CreateOrder returned, and the order that GetOrder of
    -- its ID returns, both show the user, the status "pending", and each item of the request at
    -- the price that the menu service gave while the order was placed. The ID has 32 bits.
    pub get_order-create_order :
        (req : CreateOrderRequest) (s s' : S) (resp : CreateOrderResponse)
        → InRange req
        → create_order st srv db rfc3339 req s ≡ (returns resp, s')
        → (items : List OrderItem) × (msg : OrderMessage) × (msg' : OrderMessage) × Snapshots srv s
            req.items items
          × (resp.order ≡ some msg)
          × Shows req items msg
          × (get_order st srv db rfc3339 (record { id = msg.id }) s'
              ≡ (returns (record { order = some msg' }), s'))
          × (msg'.id ≡ msg.id)
          × Shows req items msg'
          × (msg.id < 2 ^ 32)
    get_order-create_order req s s' resp range h =
        let p = (create_order_iff st srv db rfc3339 user_reads menu_reads req s s' resp).0 h in
        let row = pending_order req.user_id p.items in
        let (r, found, same_id, same) = lawful.create_first row p.order s s' refl p.stored in
        let given = lawful.create_view row p.order s s' p.stored in
        let small : (model_to_proto rfc3339 p.order).id ≡ p.order.model.id =
          unfold model_to_proto in to_u32_small p.order.model.id (ids row p.order s s' p.stored) in
        (
          p.items,
          model_to_proto rfc3339 p.order,
          model_to_proto rfc3339 r,
          p.priced,
          ap (λ a. a.order) p.reply,
          Shows-of_columns req p.items p.order s range p.priced given,
          rw small (unfold get_order in rw found refl),
          unfold model_to_proto in (rw same_id refl),
          Shows-of_columns req p.items r s range p.priced (same ∙ given),
          unfold model_to_proto in to_u32-lt p.order.model.id,
        )
