-- ===== src/Order/Snapshot.antt =====
-- The items of an order, beside the answers of the menu service.
use ss2025_web.Base.{err}
use ss2025_web.Base.{Result-cases}
use ss2025_web.Base.{ok}
use ss2025_web.Base.{◌≡◌, some, none, List, [], ◌∷◌, arith, inl, inr, Option-cases}
use ss2025_web.Menu.{MenuItemMessage, GetMenuItemRequest}
use ss2025_web.Clients.{ReadsOnly}
use ss2025_web.Order.{OrderItem, OrderItemRequest}
use ss2025_web.Order.Server.{OrderServer, new_order_item}

module _ {S Err : Type 0} (srv : OrderServer S Err) (s : S) where
  -- The menu service answers for this item with this price.
  pub record Priced (r : OrderItemRequest) (i : OrderItem) : Type 0 where
    pub item : MenuItemMessage
    pub fetched :
        srv.menu_client.get_menu_item (record { id = r.menu_item_id }) s
        ≡ (ok (record { menu_item = some item }), s)
    pub stored : i ≡ new_order_item r item.price

  -- The items stand for those of the request, in order.
  abbrev pub Snapshots : List OrderItemRequest → List OrderItem → Type 0
  Snapshots [] [] = Unit
  Snapshots (r ∷ rs) (i ∷ is) = Priced r i × Snapshots rs is
  Snapshots [] (i ∷ is) = ⊥
  Snapshots (r ∷ rs) [] = ⊥

-- The ways in which the menu service can answer for an item.
pub data Answer {S Err : Type 0} (srv : OrderServer S Err) (s : S) (r : OrderItemRequest)
    : Type 0 where
  priced :
      (m : MenuItemMessage)
      → srv.menu_client.get_menu_item (record { id = r.menu_item_id }) s
        ≡ (ok (record { menu_item = some m }), s)
      → Answer srv s r
  empty :
      srv.menu_client.get_menu_item (record { id = r.menu_item_id }) s
        ≡ (ok (record { menu_item = none }), s)
      → Answer srv s r
  refused :
      (e : Err)
      → srv.menu_client.get_menu_item (record { id = r.menu_item_id }) s ≡ (err e, s)
      → Answer srv s r

module _ {S Err : Type 0} (srv : OrderServer S Err)
    (reads : ReadsOnly srv.menu_client.get_menu_item) where
  pub answer : (s : S) (r : OrderItemRequest) → Answer srv s r
  answer s r =
      let req : GetMenuItemRequest = record { id = r.menu_item_id } in
      let same = reads req s in
      elim (Result-cases (srv.menu_client.get_menu_item req s).0) [
        | inl (resp, e) ↦ elim (Option-cases resp.menu_item) [
          | inl n ↦ empty (ground arith)
          | inr (m, k) ↦ priced m (ground arith)
        ]
        | inr (d, e) ↦ refused d (ground arith)
      ]
