-- ===== src/System/InFlight.antt =====
-- A call of CreateOrder between two of its remote calls, beside the abstract cafe: it has its effect at
-- its last step, and until then it only looks.
pub mod Steps
use Prim.Native.String.{String}
use mathlib.Core.List.{append_assoc, append-nil, map-append}
use mathlib.Core.Path.{subst}
use ss2025_web.Base.{
  ℕ, ◌<◌, ◌^◌, ◌≡◌, refl, sym, ap, ◌∙◌, inl, inr, ◌⊎◌, Option, none, some, List, [], ◌∷◌, ◌++◌, map,
  All, ok, err, arith, Result-cases, format_v,
}
use ss2025_web.Base.Word.{IsInt32, to_u32_small, int_to_i32_small}
use ss2025_web.Rpc.{
  Outcome, returns, fails, panics, code_of, code_of-errorf, internal, invalid_argument,
}
use ss2025_web.User.{User}
use ss2025_web.User.Server as UserServer
use ss2025_web.User.RoundTrip as UserTrip
use ss2025_web.Menu.{MenuItem}
use ss2025_web.Menu.Server as MenuServer
use ss2025_web.Menu.RoundTrip as MenuTrip
use ss2025_web.Order.{Order, OrderItem, OrderItemRequest, CreateOrderRequest, CreateOrderResponse}
use ss2025_web.Order.Server.{new_order_item, pending_order, menu_item_error, model_to_proto}
use ss2025_web.Order.Create.{code_of-menu_item_error}
use ss2025_web.Order.Process.{Pc, asking_user, asking_item, finished, step}
use ss2025_web.Order.RoundTrip.{InRange, line, columns}
use ss2025_web.Http.Reply.{json_reply}
use ss2025_web.Gateway.{Json}
use ss2025_web.Gateway.Promise.{grpc_error_reply}
use ss2025_web.Gateway.Seen.{seen, seen-grpc_error_reply}
use ss2025_web.Spec.{
  Account, Shelf, Dish, Shop, Call, place, Seen, refused, Adds, added, failed, Places, taken,
  turned_away, priced, Serves, Session, closed, called, Line, Wish, tab,
}
use ss2025_web.Spec.Kept.{Kept}
use ss2025_web.Spec.Prices.{line_at, priced_cons, priced-append, priced-missing, priced-Within}
use ss2025_web.System.Lens.{World}
use ss2025_web.System.{Deployment, order_server, users_table, menu_table, orders_table}
use ss2025_web.System.Answers.{row_user, row_item, missing_user, missing_item, item_price}
use ss2025_web.System.Lawful.{IsLawful, orders_law}
use ss2025_web.System.Shelves.{shop_of, look, wire, wire_line, same_users, same_menu, same_orders}
use ss2025_web.System.Calls.{next_of}
use ss2025_web.System.Refines.Priced.{request_wish}
use ss2025_web.System.Refines.Orders.{stored_call}

priced-wire_line :
    (menu : Shelf Dish) (rs : List OrderItemRequest) (lines : List Line)
    → All (λ r. (r.menu_item_id < 2 ^ 32) × IsInt32 r.quantity) rs
    → priced menu (map request_wish rs) ≡ some lines
    → map wire_line lines ≡ lines
unfolding priced
priced-wire_line menu [] lines range h = let is : lines ≡ [] = ground arith in cc is
priced-wire_line menu (r ∷ rs) lines ((small, fits), range) h =
    let (dish, rest, at, able, is) =
      priced_cons menu (request_wish r) (map request_wish rs) lines h in
    let same = priced-wire_line menu rs rest range able in
    ap (map wire_line) is
    ∙ ap (λ ls. wire_line (line_at (request_wish r) dish.2) ∷ ls) same
    ∙ cc (to_u32_small r.menu_item_id small, int_to_i32_small r.quantity fits, is)

-- What a call has found of the cafe so far.
abbrev pub InFlight : {Err : Type 0} → Shop → Pc Err → Type 0
InFlight σ (asking_user req) = InRange req
InFlight σ (asking_item req items rest) =
    InRange req
    × ((a : Account) × (σ.users req.user_id ≡ some a))
    × ((done : List OrderItemRequest) × (req.items ≡ done ++ rest)
        × (priced σ.menu (map request_wish done) ≡ some (map line items)))
InFlight σ (finished o) = Unit

pub InFlight-Kept :
    {Err : Type 0} {σ σ' : Shop} → Kept σ σ' → (p : Pc Err) → InFlight σ p → InFlight σ' p
InFlight-Kept k (asking_user req) h = h
InFlight-Kept {σ} {σ'} k (asking_item req items rest) (range, (a, known), (done, split, able)) = (
  range,
  (a, k.users req.user_id a known),
  (done, split, priced-Within σ.menu σ'.menu (map request_wish done) (map line items) k.menu able),
)
InFlight-Kept k (finished o) h = tt

module _ {U M O Err : Type 0} (d : Deployment U M O Err) where
  -- The reply of the gateway to a call that is over.
  abbrev pub reply_to : Outcome Err CreateOrderResponse → Seen
  reply_to (returns a) = seen (json_reply 201 (Json.order a.order))
  reply_to (fails e) = seen (grpc_error_reply d.status e)
  reply_to panics = seen (grpc_error_reply d.status d.lost)

  abbrev pub placed : CreateOrderRequest → Outcome Err CreateOrderResponse → List (Call × Seen)
  placed req o = (place req.user_id (map request_wish req.items), reply_to o) ∷ []

  -- What a step shows of a call: its reply, if it is the last.
  abbrev pub noted : Pc Err → Pc Err → List (Call × Seen)
  noted (asking_user req) (finished o) = placed req o
  noted (asking_item req items rest) (finished o) = placed req o
  noted _ _ = []

  -- What a step does to the abstract cafe, and what it leaves the call with.
  abbrev pub IsStep : Pc Err → World U M O → Pc Err × World U M O → Type 0
  IsStep p w (p', w') =
      Session (shop_of d w) (noted p p') (shop_of d w') × InFlight (shop_of d w') p'

  pub one_call :
      (req : CreateOrderRequest) (o : Outcome Err CreateOrderResponse) (w w' : World U M O)
      → Serves
          (place req.user_id (map request_wish req.items))
          (shop_of d w)
          (reply_to o)
          (shop_of d w')
      → Session (shop_of d w) (placed req o) (shop_of d w')
  one_call req o w w' h =
      called (place req.user_id (map request_wish req.items)) (reply_to o) h closed

  -- The items of a request, in the words of the abstract cafe.
  pub more_priced :
      (w : World U M O) (done : List OrderItemRequest) (items : List OrderItem)
      (r : OrderItemRequest) (m : MenuItem)
      → priced (shop_of d w).menu (map request_wish done) ≡ some (map line items)
      → (shop_of d w).menu r.menu_item_id ≡ some (MenuTrip.columns m)
      → priced (shop_of d w).menu (map request_wish (done ++ r ∷ []))
        ≡ some (map line (items ++ new_order_item r m.price ∷ []))
  more_priced w done items r m able there =
      ap (priced (shop_of d w).menu) (map-append request_wish done (r ∷ []))
      ∙ priced-append (shop_of d w).menu (map request_wish done) (request_wish r) (map line items)
          (MenuTrip.columns m) able there
      ∙ ap some (sym (map-append line items (new_order_item r m.price ∷ [])))

  pub unpriced :
      (w : World U M O) (req : CreateOrderRequest) (done : List OrderItemRequest)
      (r : OrderItemRequest) (rest : List OrderItemRequest)
      → req.items ≡ done ++ r ∷ rest
      → (shop_of d w).menu r.menu_item_id ≡ none
      → priced (shop_of d w).menu (map request_wish req.items) ≡ none
  unpriced w req done r rest split gone =
      ap (λ rs. priced (shop_of d w).menu (map request_wish rs)) split
      ∙ ap (priced (shop_of d w).menu) (map-append request_wish done (r ∷ rest))
      ∙ priced-missing (shop_of d w).menu (map request_wish done) (request_wish r)
          (map request_wish rest) gone

  pub all_priced :
      (w : World U M O) (req : CreateOrderRequest) (done : List OrderItemRequest)
      (items : List OrderItem)
      → req.items ≡ done ++ []
      → priced (shop_of d w).menu (map request_wish done) ≡ some (map line items)
      → priced (shop_of d w).menu (map request_wish req.items) ≡ some (map line items)
  all_priced w req done items split able =
      ap (λ rs. priced (shop_of d w).menu (map request_wish rs)) (split ∙ append-nil done) ∙ able

  -- Items of a request in range are shown as they are stored.
  pub wired :
      (w : World U M O) (req : CreateOrderRequest) (items : List OrderItem)
      → InRange req
      → priced (shop_of d w).menu (map request_wish req.items) ≡ some (map line items)
      → wire (columns (pending_order req.user_id items)) ≡ (req.user_id, "pending", map line items)
  wired w req items (small, range) able =
      ap (λ u. (u, "pending", map wire_line (map line items))) (to_u32_small req.user_id small)
      ∙ ap (λ ls. (req.user_id, "pending", ls))
          (priced-wire_line (shop_of d w).menu req.items (map line items) range able)
