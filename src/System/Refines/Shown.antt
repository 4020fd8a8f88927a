-- ===== src/System/Refines/Shown.antt =====
-- Orders that are shown, beside the abstract cafe.
use ss2025_web.Base.{
  ℕ, ◌<◌, ◌^◌, ◌≡◌, refl, ap, ◌∙◌, inl, inr, some, List, [], ◌∷◌, map, ok, err, arith, Result-cases,
}
use Prim.Native.String.{String}
use ss2025_web.Base.Word.{to_u32, to_u32_small}
use ss2025_web.Gorm.{Time, DbError}
use ss2025_web.Rpc.{code_of-errorf, not_found}
use ss2025_web.Order.{OrderMessage, Order, OrderItem, GetOrderResponse}
use ss2025_web.Order.Server.{model_to_proto, item_to_proto, get_order}
use ss2025_web.Order.RoundTrip.{line, message_line, columns}
use ss2025_web.Http.Reply.{json_reply}
use ss2025_web.Gateway.{Json}
use ss2025_web.Gateway.Promise.{relay}
use ss2025_web.Gateway.Seen.{seen, seen-grpc_error_reply, message_tab}
use ss2025_web.Spec.{shows, there, missing, Serves, show_order, tab, Tab}
use ss2025_web.System.Lens.{World}
use ss2025_web.System.{Deployment, order_client}
use ss2025_web.System.Lawful.{IsLawful}
use ss2025_web.System.Shelves.{shop_of, look, wire, wire_line}

shown_lines :
    (rfc3339 : Time → String) (is : List OrderItem)
    → map message_line (map (item_to_proto rfc3339) is) ≡ map wire_line (map line is)
shown_lines rfc3339 [] = refl
shown_lines rfc3339 (i ∷ is) = ap (λ l. wire_line (line i) ∷ l) (shown_lines rfc3339 is)

abbrev pub shown_row : OrderMessage → ℕ × Tab
shown_row m = (m.id, message_tab m)

-- The message of an order shows its row.
pub shown_tab :
    (rfc3339 : Time → String) (o : Order)
    → shown_row (model_to_proto rfc3339 o) ≡ (to_u32 o.model.id, wire (columns o))
unfolding model_to_proto
shown_tab rfc3339 o =
    ap (λ ls. (to_u32 o.model.id, (to_u32 o.user_id, o.status, ls)))
      (shown_lines rfc3339 o.order_items)

pub shown_order :
    (rfc3339 : Time → String) (code : ℕ) (o : Order)
    → o.model.id < 2 ^ 32
    → seen (json_reply code (Json.order (some (model_to_proto rfc3339 o))))
      ≡ shows code (tab o.model.id (wire (columns o)))
shown_order rfc3339 code o small =
    ap (λ m. shows code (tab m.0 m.1)) (shown_tab rfc3339 o)
    ∙ ap (λ i. shows code (tab i (wire (columns o)))) (to_u32_small o.model.id small)

module _ {U M O Err : Type 0} (d : Deployment U M O Err) (law : IsLawful d) where
  row_found :
      (i : ℕ) (w : World U M O) (o : Order)
      → d.orders.first ("OrderItems" ∷ []) i w.orders ≡ ok o
      → (order_client d).get_order (record { id = i }) w
        ≡ (ok (record { order = some (model_to_proto d.rfc3339 o) }), w)
  unfolding get_order
  row_found i w o h = ground arith

  row_missing :
      (i : ℕ) (w : World U M O) (x : DbError)
      → d.orders.first ("OrderItems" ∷ []) i w.orders ≡ err x
      → (order_client d).get_order (record { id = i }) w
        ≡ (err (d.status.errorf not_found "order not found"), w)
  unfolding get_order
  row_missing i w x h = ground arith

  pub get_order-Serves :
      (i : ℕ) (w : World U M O)
      → i < 2 ^ 32
      → let c =
          relay d.status 200
            (λ (a : GetOrderResponse). Json.order a.order)
            ((order_client d).get_order (record { id = i }) w) in
        Serves (show_order i) (shop_of d w) (seen c.writer) (shop_of d c.state)
  get_order-Serves i w small = elim (Result-cases (d.orders.first ("OrderItems" ∷ []) i w.orders)) [
    | inl (o, e) ↦
        let same = law.orders.first_id i w.orders o e in
        rw (row_found i w o e) (
          there (wire (columns o)) (ap (look (λ o. wire (columns o))) e) (
              shown_order d.rfc3339 200 o (rw same small)
              ∙ ap (λ j. shows 200 (tab j (wire (columns o)))) same),
          refl,
        )
    | inr (x, e) ↦ rw (row_missing i w x e) (
      missing (ap (look (λ o. wire (columns o))) e) (
          inl (
            seen-grpc_error_reply d.status _ not_found
              (code_of-errorf law.status not_found "order not found"))),
      refl,
    )
  ]
