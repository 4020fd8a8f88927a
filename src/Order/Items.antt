-- ===== src/Order/Items.antt =====
-- The loop of `CreateOrder` over the items of the request, and the ways in which it ends.
use ss2025_web.Base.{err}
use ss2025_web.Base.{ok}
use ss2025_web.Base.{◌≡◌, refl, sym, ap, ◌∙◌, some, none, List, [], ◌∷◌, ◌++◌, arith}
use mathlib.Core.List.{append-nil, append_assoc}
use ss2025_web.Rpc.{Status, returns, fails, panics}
use ss2025_web.Menu.{MenuItemMessage}
use ss2025_web.Clients.{ReadsOnly}
use ss2025_web.Order.{OrderItem, OrderItemRequest}
use ss2025_web.Order.Server.{OrderServer, new_order_item, add_items, menu_item_error}
use ss2025_web.Order.Snapshot.{Snapshots, answer, priced, empty, refused}

module _ {S Err : Type 0} (st : Status Err) (srv : OrderServer S Err) where
  -- One round of the loop, by how the menu service answers.
  pub add_items-priced :
      (acc : List OrderItem) (r : OrderItemRequest) (rs : List OrderItemRequest) (s : S)
      (m : MenuItemMessage)
      → srv.menu_client.get_menu_item (record { id = r.menu_item_id }) s
        ≡ (ok (record { menu_item = some m }), s)
      → add_items st srv acc (r ∷ rs) s
        ≡ add_items st srv (acc ++ new_order_item r m.price ∷ []) rs s
  unfolding add_items
  add_items-priced acc r rs s m h = ground arith

  add_items-nil :
      (acc : List OrderItem) (r : OrderItemRequest) (rs : List OrderItemRequest) (s : S)
      → srv.menu_client.get_menu_item (record { id = r.menu_item_id }) s
        ≡ (ok (record { menu_item = none }), s)
      → add_items st srv acc (r ∷ rs) s ≡ (panics, s)
  unfolding add_items
  add_items-nil acc r rs s h = ground arith

  pub add_items-fails :
      (acc : List OrderItem) (r : OrderItemRequest) (rs : List OrderItemRequest) (s : S) (e : Err)
      → srv.menu_client.get_menu_item (record { id = r.menu_item_id }) s ≡ (err e, s)
      → add_items st srv acc (r ∷ rs) s ≡ (fails (menu_item_error st r e), s)
  unfolding add_items
  add_items-fails acc r rs s e h = ground arith

-- How the loop ends.
pub data Walk {S Err : Type 0} (st : Status Err) (srv : OrderServer S Err) (s : S)
    (acc : List OrderItem) (rs : List OrderItemRequest) : Type 0 where
  all_priced :
      (new : List OrderItem)
      → Snapshots srv s rs new
      → add_items st srv acc rs s ≡ (returns (acc ++ new), s)
      → Walk st srv s acc rs
  one_refused :
      (r : OrderItemRequest) (d : Err)
      → srv.menu_client.get_menu_item (record { id = r.menu_item_id }) s ≡ (err d, s)
      → add_items st srv acc rs s ≡ (fails (menu_item_error st r d), s)
      → Walk st srv s acc rs
  one_empty :
      (r : OrderItemRequest)
      → srv.menu_client.get_menu_item (record { id = r.menu_item_id }) s
        ≡ (ok (record { menu_item = none }), s)
      → add_items st srv acc rs s ≡ (panics, s)
      → Walk st srv s acc rs

module _ {S Err : Type 0} (st : Status Err) (srv : OrderServer S Err) where
  Walk-priced :
      (acc : List OrderItem) (r : OrderItemRequest) (rs : List OrderItemRequest) (s : S)
      (m : MenuItemMessage)
      → srv.menu_client.get_menu_item (record { id = r.menu_item_id }) s
        ≡ (ok (record { menu_item = some m }), s)
      → Walk st srv s (acc ++ new_order_item r m.price ∷ []) rs
      → Walk st srv s acc (r ∷ rs)
  Walk-priced acc r rs s m e (all_priced new h k) =
      let i = new_order_item r m.price in
      all_priced (i ∷ new) (record { item = m; fetched = e; stored = refl }, h)
        (add_items-priced st srv acc r rs s m e ∙ k ∙ rw (append_assoc acc (i ∷ []) new) refl)
  Walk-priced acc r rs s m e (one_refused r' d h k) =
      one_refused r' d h (add_items-priced st srv acc r rs s m e ∙ k)
  Walk-priced acc r rs s m e (one_empty r' h k) =
      one_empty r' h (add_items-priced st srv acc r rs s m e ∙ k)

  module _ (reads : ReadsOnly srv.menu_client.get_menu_item) where
    pub walk : (acc : List OrderItem) (rs : List OrderItemRequest) (s : S) → Walk st srv s acc rs
    walk acc [] s =
        all_priced [] tt (unfold add_items in ap (λ l. (returns l, s)) (sym (append-nil acc)))
    walk acc (r ∷ rs) s = elim (answer srv reads s r) [
      | priced m e ↦ Walk-priced acc r rs s m e (walk (acc ++ new_order_item r m.price ∷ []) rs s)
      | empty e ↦ one_empty r e (add_items-nil st srv acc r rs s e)
      | refused d e ↦ one_refused r d e (add_items-fails st srv acc r rs s d e)
    ]

  -- Whatever items are priced, the loop stores them.
  pub add_items_of_Snapshots :
      (acc new : List OrderItem) (rs : List OrderItemRequest) (s : S)
      → Snapshots srv s rs new
      → add_items st srv acc rs s ≡ (returns (acc ++ new), s)
  add_items_of_Snapshots acc [] [] s h =
      unfold add_items in ap (λ l. (returns l, s)) (sym (append-nil acc))
  add_items_of_Snapshots acc (i ∷ is) (r ∷ rs) s (p, h) =
      add_items-priced st srv acc r rs s p.item p.fetched
      ∙ rw (← p.stored) (
          add_items_of_Snapshots (acc ++ i ∷ []) is rs s h ∙ rw (append_assoc acc (i ∷ []) is) refl)
  add_items_of_Snapshots acc (i ∷ is) [] s h = absurd h
  add_items_of_Snapshots acc [] (r ∷ rs) s h = absurd h
