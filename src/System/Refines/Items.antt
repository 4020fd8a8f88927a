-- ===== src/System/Refines/Items.antt =====
-- The endpoints for menu items, beside the abstract cafe.
use Prim.Native.String.{String}
use ss2025_web.Base.{
  ◌≢◌, ℕ, ◌<◌, ◌^◌, ◌≡◌, refl, ap, ◌∙◌, inl, inr, ◌⊎◌, some, [], ok, err, arith, Result-cases,
}
use ss2025_web.Base.Word.{to_u32_small}
use ss2025_web.Gorm.{Time, DbError, record_not_found}
use ss2025_web.Rpc.{panics, code_of-errorf, internal, not_found}
use ss2025_web.Rpc.Inversion.{writes-ne-panics}
use ss2025_web.Menu.{MenuItem, CreateMenuItemRequest, CreateMenuItemResponse, GetMenuItemResponse}
use ss2025_web.Menu.Server as MenuServer
use ss2025_web.Menu.RoundTrip.{create_menu_item-returns, columns, item_model}
use ss2025_web.Menu.Errors.{create_menu_item_atomic}
use ss2025_web.Http.Reply.{json_reply}
use ss2025_web.Gateway.{Json}
use ss2025_web.Gateway.Promise.{relay, grpc_error_reply}
use ss2025_web.Gateway.Seen.{seen, seen-grpc_error_reply}
use ss2025_web.Spec.{
  shows, refused, added, failed, there, missing, Serves, add_dish, show_dish, dish,
}
use ss2025_web.System.Lens.{World}
use ss2025_web.System.{Deployment, menu_client, menu_table}
use ss2025_web.System.Lawful.{IsLawful, menu_law, menu_fit}
use ss2025_web.System.Shelves.{
  shelf_fresh, shelf-create, same_users, same_menu, same_orders, shop_of, look,
}
use ss2025_web.System.Answers.{row_item, missing_item}
use ss2025_web.System.Walkthrough.{dial-ok, dial-err}

shown_item :
    (rfc3339 : Time → String) (code : ℕ) (u : MenuItem)
    → u.model.id < 2 ^ 32
    → seen (json_reply code (Json.menu_item (some (MenuServer.model_to_proto rfc3339 u))))
      ≡ shows code (dish u.model.id (columns u))
unfolding MenuServer.model_to_proto
shown_item rfc3339 code u small =
    ap (λ i. shows code (dish i (columns u))) (to_u32_small u.model.id small)

module _ {U M O Err : Type 0} (d : Deployment U M O Err) (law : IsLawful d) where
  item_added :
      (q : CreateMenuItemRequest) (w w' : World U M O) (a : CreateMenuItemResponse)
      → (menu_client d).create_menu_item q w ≡ (ok a, w')
      → Serves
          (add_dish (q.name, q.description, q.price))
          (shop_of d w)
          (seen (json_reply 201 (Json.menu_item a.menu_item)))
          (shop_of d w')
  item_added q w w' a h =
      let (u, made, answer) =
        create_menu_item-returns d.status (menu_table d) d.rfc3339 (menu_law law) (menu_fit law) q w
          w' a
          (dial-ok d.lost (MenuServer.create_menu_item d.status (menu_table d) d.rfc3339) q w w' a
            h) in
      let stored : d.menu.create (MenuServer.new_menu_item q) w.menu ≡ (ok u, w'.menu) =
        ground (arith, made) in
      let small = law.menu_ids (MenuServer.new_menu_item q) u w.menu w'.menu stored in
      let same = law.menu.create_view (MenuServer.new_menu_item q) u w.menu w'.menu stored in
      (
        added u.model.id
            (shelf_fresh d.menu [] item_model columns law.menu (λ c. c) (MenuServer.new_menu_item q)
              u w.menu w'.menu stored)
            (ap (λ o. seen (json_reply 201 (Json.menu_item o))) answer
              ∙ shown_item d.rfc3339 201 u small
              ∙ ap (λ c. shows 201 (dish u.model.id c)) same)
            (shelf-create d.menu [] item_model columns law.menu (λ c. c)
              (MenuServer.new_menu_item q) u w.menu w'.menu refl stored),
        same_users d w w' (ground (arith, made)),
        same_orders d w w' (ground (arith, made)),
      )

  item_refused :
      (q : CreateMenuItemRequest) (w w' : World U M O) (e : Err)
      → (menu_client d).create_menu_item q w ≡ (err e, w')
      → Serves
          (add_dish (q.name, q.description, q.price))
          (shop_of d w)
          (seen (grpc_error_reply d.status e))
          (shop_of d w')
  item_refused q w w' e h =
      let up : (MenuServer.create_menu_item d.status (menu_table d) d.rfc3339 q w).0 ≢ panics =
        unfold MenuServer.create_menu_item in
        writes-ne-panics _ _ ((menu_table d).create (MenuServer.new_menu_item q)) w in
      let (same, code) =
        create_menu_item_atomic law.status (menu_table d) d.rfc3339 (menu_law law) q w w' e (
          dial-err d.lost (MenuServer.create_menu_item d.status (menu_table d) d.rfc3339) q w w' e
            up h) in
      (
        failed (seen-grpc_error_reply d.status e internal code)
            (same_menu d w w' (ap (λ v. v.menu) same)),
        same_users d w w' (ap (λ v. v.users) same),
        same_orders d w w' (ap (λ v. v.orders) same),
      )

  pub create_menu_item-Serves :
      (q : CreateMenuItemRequest) (w : World U M O)
      → let c =
          relay d.status 201
            (λ (a : CreateMenuItemResponse). Json.menu_item a.menu_item)
            ((menu_client d).create_menu_item q w) in
        Serves
          (add_dish (q.name, q.description, q.price))
          (shop_of d w)
          (seen c.writer)
          (shop_of d c.state)
  create_menu_item-Serves q w =
      let w' = ((menu_client d).create_menu_item q w).1 in
      elim (Result-cases ((menu_client d).create_menu_item q w).0) [
        | inl (a, e) ↦
            let h : (menu_client d).create_menu_item q w ≡ (ok a, w') = ap (λ r. (r, w')) e in
            rw h (item_added q w w' a h)
        | inr (e, k) ↦
            let h : (menu_client d).create_menu_item q w ≡ (err e, w') = ap (λ r. (r, w')) k in
            rw h (item_refused q w w' e h)
      ]

  row_missing :
      (x : DbError)
      → (seen (
            grpc_error_reply d.status
              (MenuServer.get_menu_item_error d.status (menu_table d) d.rfc3339 x))
          ≡ refused 404)
        ⊎ (seen (
              grpc_error_reply d.status
                (MenuServer.get_menu_item_error d.status (menu_table d) d.rfc3339 x))
            ≡ refused 500)
  unfolding MenuServer.get_menu_item_error
  row_missing record_not_found = inl (
      seen-grpc_error_reply d.status _ not_found
        (code_of-errorf law.status not_found "menu item not found"))
  row_missing (DbError.failed m) =
      inr (seen-grpc_error_reply d.status _ internal (code_of-errorf law.status internal _))

  pub get_menu_item-Serves :
      (i : ℕ) (w : World U M O)
      → i < 2 ^ 32
      → let c =
          relay d.status 200
            (λ (a : GetMenuItemResponse). Json.menu_item a.menu_item)
            ((menu_client d).get_menu_item (record { id = i }) w) in
        Serves (show_dish i) (shop_of d w) (seen c.writer) (shop_of d c.state)
  get_menu_item-Serves i w small = elim (Result-cases (d.menu.first [] i w.menu)) [
    | inl (u, e) ↦
        let same = law.menu.first_id i w.menu u e in
        rw (row_item d.status d.rfc3339 d.lost (menu_table d) i w u e) (
          there (columns u) (ap (look columns) e) (
              shown_item d.rfc3339 200 u (rw same small)
              ∙ ap (λ j. shows 200 (dish j (columns u))) same),
          refl,
        )
    | inr (x, e) ↦
        rw (missing_item d.status d.rfc3339 d.lost (menu_table d) i w x e)
          (missing (ap (look columns) e) (row_missing x), refl)
  ]
