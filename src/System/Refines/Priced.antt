-- ===== src/System/Refines/Priced.antt =====
-- The items of an order, beside the menu of the abstract cafe.
use ss2025_web.Base.{
  ◌<◌, ◌^◌, ◌≡◌, refl, ap, ◌∙◌, inl, inr, none, some, List, [], ◌∷◌, ◌++◌, map, All, ok, arith,
  Result-cases, Option-cases,
}
use ss2025_web.Base.Word.{IsInt32, to_u32_small, int_to_i32_small}
use ss2025_web.Rpc.{fails}
use ss2025_web.Menu.{MenuItem}
use ss2025_web.Menu.Server as MenuServer
use ss2025_web.Order.{OrderItem, OrderItemRequest}
use ss2025_web.Order.Server.{new_order_item, add_items, menu_item_error}
use ss2025_web.Order.Items.{add_items-priced, add_items-fails}
use ss2025_web.Order.RoundTrip.{line}
use ss2025_web.Spec.{Wish, Line, priced}
use ss2025_web.System.Lens.{World}
use ss2025_web.System.{Deployment, order_server, menu_table}
use ss2025_web.System.Shelves.{shop_of, wire_line}
use ss2025_web.System.Orders.{Listed}
use ss2025_web.System.Answers.{row_item, missing_item}

abbrev pub request_wish : OrderItemRequest → Wish
request_wish r = (r.menu_item_id, r.quantity)

module _ {U M O Err : Type 0} (d : Deployment U M O Err) where
  -- An order whose items are on the menu has them listed.
  pub Listed-of_priced :
      (w : World U M O) (rs : List OrderItemRequest) (lines : List Line)
      → priced (shop_of d w).menu (map request_wish rs) ≡ some lines
      → (is : List OrderItem) × Listed d w rs is × (map line is ≡ lines)
  unfolding priced
  Listed-of_priced w [] lines h = ([], tt, ground arith)
  Listed-of_priced w (r ∷ rs) lines h =
      elim (Result-cases (d.menu.first [] r.menu_item_id w.menu)) [
        | inl (m, e) ↦ elim (Option-cases (priced (shop_of d w).menu (map request_wish rs))) [
          | inl n ↦ absurd (ground arith)
          | inr (rest, k) ↦
              let (is, listed, same) = Listed-of_priced w rs rest k in
              (new_order_item r m.price ∷ is, ((m, e, refl), listed), ground arith)
        ]
        | inr (x, e) ↦ absurd (ground arith)
      ]

  unpriced_rest :
      (w : World U M O) (r : OrderItemRequest) (rs : List OrderItemRequest) (m : MenuItem)
      → d.menu.first [] r.menu_item_id w.menu ≡ ok m
      → priced (shop_of d w).menu (map request_wish (r ∷ rs)) ≡ none
      → priced (shop_of d w).menu (map request_wish rs) ≡ none
  unfolding priced
  unpriced_rest w r rs m e h =
      elim (Option-cases (priced (shop_of d w).menu (map request_wish rs))) [
        | inl n ↦ n
        | inr (rest, k) ↦ absurd (ground arith)
      ]

  -- Where an item is not on the menu, the loop stops at one.
  pub add_items_unpriced :
      (w : World U M O) (acc : List OrderItem) (rs : List OrderItemRequest)
      → priced (shop_of d w).menu (map request_wish rs) ≡ none
      → (r : OrderItemRequest) × (e : Err) × (add_items d.status (order_server d) acc rs w
          ≡ (fails (menu_item_error d.status r e), w))
  unfolding priced
  add_items_unpriced w acc [] h = absurd (ground arith)
  add_items_unpriced w acc (r ∷ rs) h =
      elim (Result-cases (d.menu.first [] r.menu_item_id w.menu)) [
        | inl (m, e) ↦
            let (r', x, rest) =
              add_items_unpriced w
                (acc ++ new_order_item r (MenuServer.model_to_proto d.rfc3339 m).price ∷ []) rs
                (unpriced_rest w r rs m e h) in
            (
              r',
              x,
              add_items-priced d.status (order_server d) acc r rs w
                    (MenuServer.model_to_proto d.rfc3339 m)
                    (row_item d.status d.rfc3339 d.lost (menu_table d) r.menu_item_id w m e)
                  ∙ rest,
            )
        | inr (x, e) ↦ (
          r,
          _,
          add_items-fails d.status (order_server d) acc r rs w _
              (missing_item d.status d.rfc3339 d.lost (menu_table d) r.menu_item_id w x e),
        )
      ]

  -- Items of a request in range are shown as they are stored.
  pub wire_lines :
      (w : World U M O) (rs : List OrderItemRequest) (is : List OrderItem)
      → All (λ r. (r.menu_item_id < 2 ^ 32) × IsInt32 r.quantity) rs
      → Listed d w rs is
      → map wire_line (map line is) ≡ map line is
  wire_lines w [] [] h k = refl
  wire_lines w (r ∷ rs) (i ∷ is) ((small, fits), h) ((m, e, made), k) =
      let item = ap (λ x. x.menu_item_id) made in
      let quantity = ap (λ x. x.quantity) made in
      cc (
        to_u32_small i.menu_item_id (rw item small),
        int_to_i32_small i.quantity (rw quantity fits),
        wire_lines w rs is h k,
      )
  wire_lines w [] (i ∷ is) h k = absurd k
  wire_lines w (r ∷ rs) [] h k = absurd k
