-- ===== src/System/Quantities.antt =====
-- Quantities of 2^31 or more in an order that is posted to the gateway.
use mathlib.Core.Path.{subst}
use ss2025_web.Base.{
  ℕ, ◌-◌, ◌^◌, ◌≤◌, ◌<◌, ◌≡◌, ap, ◌∙◌, Bool, true, some, List, [], ◌∷◌, map, ok, Has, here, later,
  Has-map, All, arith,
}
use ss2025_web.Base.Word.{ℤ, negsuc, Float64, as_i32_large}
use ss2025_web.User.{User}
use ss2025_web.Order.{Order}
use ss2025_web.Order.Server.{pending_order}
use ss2025_web.Http.Handler.{Conn, run}
use ss2025_web.Gateway.{Json}
use ss2025_web.Gateway.Orders.{ItemBody, OrderBody, item_request}
use ss2025_web.Gateway.Requests.{IsUint32}
use ss2025_web.Gateway.Routes.{Endpoint, Request, handle}
use ss2025_web.Gateway.Seen.{seen, wish}
use ss2025_web.Spec.{
  Line, Tab, tab, Seen, shows, priced, Shop, Shelf, Dish, Places, taken, turned_away, added, failed,
}
use ss2025_web.Spec.Prices.{priced-Has}
use ss2025_web.System.Lens.{World}
use ss2025_web.System.{Deployment, gateway_clients}
use ss2025_web.System.Lawful.{IsLawful}
use ss2025_web.System.Shelves.{shop_of}
use ss2025_web.System.Answers.{create_order_answered}
use ss2025_web.System.Refines.{handle_refines, wishes-convert}
use ss2025_web.System.Refines.Priced.{Listed-of_priced}

-- An order that is taken is shown.
taken_shown :
    (who : ℕ) (ws : List (ℕ × ℤ)) (σ : Shop) (s : Seen) (orders : Shelf Tab) (lines : List Line)
    → priced σ.menu ws ≡ some lines
    → s.status ≡ 201
    → Places who ws σ s orders
    → (i : ℕ) × (s ≡ shows 201 (tab i (who, "pending", lines)))
taken_shown who ws σ s orders lines able made (taken a ls known h (added i free shown e)) =
    let same : ls ≡ lines = ground arith in
    (i, shown ∙ ap (λ l. shows 201 (tab i (who, "pending", l))) same)
taken_shown who ws σ s orders lines able made (taken a ls known h (failed shown e)) =
    absurd (ground arith)
taken_shown who ws σ s orders lines able made (turned_away why shown e) = absurd (ground arith)

IsUint32-Has :
    (items : List ItemBody) (item : ItemBody)
    → All (λ i. (i.menu_item_id < 2 ^ 32) × (i.quantity < 2 ^ 32)) items
    → Has item items
    → item.quantity < 2 ^ 32
IsUint32-Has (i ∷ items) item ((_, small), h) (here e) = rw e small
IsUint32-Has (i ∷ items) item (_, h) (later k) = IsUint32-Has items item h k
IsUint32-Has [] item h k = elim k [ ]

negative_line :
    (menu : Shelf Dish) (b : OrderBody) (lines : List Line)
    → IsUint32 b
    → priced menu (map wish b.items) ≡ some lines
    → (item : ItemBody) → Has item b.items
    → 2 ^ 31 ≤ item.quantity
    → (price : Float64) × Has (item.menu_item_id, negsuc (2 ^ 32 - 1 - item.quantity), price) lines
negative_line menu b lines (_, narrow) able item wanted large =
    let (dish, _, listed) =
      priced-Has menu (map wish b.items) lines (wish item) able (Has-map wish wanted) in
    let turned = as_i32_large item.quantity large (IsUint32-Has b.items item narrow wanted) in
    (dish.2, subst (λ q. Has (item.menu_item_id, q, dish.2) lines) turned listed)

module _ {U M O Err : Type 0} (d : Deployment U M O Err) (law : IsLawful d) (marshals : Json → Bool)
    (all : (v : Json) → marshals v ≡ true) where
  abbrev posted_order : Request → OrderBody → World U M O → Conn (World U M O) Json
  posted_order r b w =
      run
        (handle d.status (gateway_clients d) marshals Endpoint.create_order
          (record r { order_body = ok b }))
        w

  -- In a deployment whose status package and tables meet Rpc.IsStatus and Gorm.IsTable and whose IDs
  -- have 32 bits, while every value can be marshalled: a POST of an order, of a body of `uint32`
  -- numbers, of a user who is there and of items that are all on the menu, one of them with a quantity
  -- of 2^31 or more, is answered with 201 where the database takes any order; the order that is shown
  -- has its items at the prices of the menu, and among them a line of that item with a negative
  -- quantity, 2^32 less than the one that was posted.
  pub create_order_negative :
      (r : Request) (b : OrderBody) (u : User) (lines : List Line) (item : ItemBody)
      (w : World U M O)
      → IsUint32 b
      → d.users.first [] b.user_id w.users ≡ ok u
      → priced (shop_of d w).menu (map wish b.items) ≡ some lines
      → ((row : Order)
          → (o : Order) × (orders : O) × (d.orders.create row w.orders ≡ (ok o, orders)))
      → Has item b.items
      → 2 ^ 31 ≤ item.quantity
      → ((i : ℕ) × (seen (posted_order r b w).writer
            ≡ shows 201 (tab i (b.user_id, "pending", lines))))
        × ((price : Float64) × Has
              (item.menu_item_id, negsuc (2 ^ 32 - 1 - item.quantity), price)
              lines)
  create_order_negative r b u lines item w typed known able willing wanted large =
      let c = posted_order r b w in
      let (is, listed, _) =
        Listed-of_priced d w (map item_request b.items) lines
          (ap (priced (shop_of d w).menu) (wishes-convert b.items) ∙ able) in
      let (o, orders, made) = willing (pending_order b.user_id is) in
      let answer = create_order_answered d marshals all r b u is o w orders known listed made in
      let (placed, _, _) =
        handle_refines d law marshals all Endpoint.create_order (record r { order_body = ok b }) w
          (λ b' e. subst IsUint32 (ground arith) typed) in
      (
        taken_shown b.user_id (map wish b.items) (shop_of d w) (seen c.writer)
            (shop_of d c.state).orders lines able (ap (λ x. (seen x.writer).status) answer) placed,
        negative_line (shop_of d w).menu b lines typed able item wanted large,
      )
