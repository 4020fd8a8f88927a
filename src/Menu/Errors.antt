-- ===== src/Menu/Errors.antt =====
-- The errors of the item server, and what it lists.
use mathlib.Core.List.{Perm}
use Prim.Native.String.{String}
use ss2025_web.Base.{◌≡◌, ◌↔◌, refl, some, List, [], ◌∷◌, map, err, ap, format_v}
use ss2025_web.Base.Word.{Float64}
use ss2025_web.Gorm.{Time, Table, IsTable, DbError, record_not_found, failed}
use ss2025_web.Rpc.{Status, IsStatus, code_of, code_of-errorf, returns, fails, internal, not_found}
use ss2025_web.Rpc.Inversion.{reads-fails, reads-returns, writes-fails, writes-returns}
use ss2025_web.Menu.{
  MenuItem, MenuItemMessage, CreateMenuItemRequest, CreateMenuItemResponse, GetMenuItemRequest,
  GetMenuResponse,
}
use ss2025_web.Menu.Server.{
  model_to_proto, new_menu_item, create_menu_item, get_menu_item, get_menu, get_menu_item_error,
}
use ss2025_web.Menu.RoundTrip.{columns, item_model}

-- What a list shows of a item, but for the ID and the times.
abbrev pub listed : MenuItemMessage → String × String × Float64
listed m = (m.name, m.description, m.price)

listed-model_to_proto :
    (rfc3339 : Time → String) (us : List MenuItem)
    → map listed (map (model_to_proto rfc3339) us) ≡ map columns us
unfolding model_to_proto
listed-model_to_proto rfc3339 [] = refl
listed-model_to_proto rfc3339 (u ∷ us) = ap (λ r. columns u ∷ r) (listed-model_to_proto rfc3339 us)

module _ {S Err : Type 0} {st : Status Err} (is : IsStatus st) (db : Table S MenuItem)
    (rfc3339 : Time → String) where
  get_menu_item_error-not_found_iff :
      (d : DbError)
      → (code_of st (get_menu_item_error st db rfc3339 d) ≡ some not_found) ↔ (d ≡ record_not_found)
  unfolding get_menu_item_error
  get_menu_item_error-not_found_iff record_not_found =
      (λ _. refl, λ _. code_of-errorf is not_found "menu item not found")
  get_menu_item_error-not_found_iff (failed m) =
      let e =
        code_of-errorf is internal
          (format_v "failed to get menu item: " (db.error_text (failed m))) in
      ((λ h. cc), (λ h. cc))

  -- While the status package gives back the code of an error: a GetMenuItem that fails leaves the
  -- database alone, and its error is NotFound exactly when no row was found.
  pub get_menu_item_errors :
      (req : GetMenuItemRequest) (s s' : S) (e : Err)
      → get_menu_item st db rfc3339 req s ≡ (fails e, s')
      → (s' ≡ s) × ((code_of st e ≡ some not_found) ↔ (db.first [] req.id s ≡ err record_not_found))
  unfolding get_menu_item
  get_menu_item_errors req s s' e h =
      let (d, found, is_d, same) =
        reads-fails (get_menu_item_error st db rfc3339) _ (db.first [] req.id) s s' e h in
      let (to, from) = get_menu_item_error-not_found_iff d in
      (same, rw (is_d, found) ((λ p. ap err (to p)), (λ p. from (cc))))

  -- While the status package gives back the code of an error and a failed insert is rolled back: a
  -- CreateMenuItem that fails has changed nothing, and its error is Internal.
  pub create_menu_item_atomic :
      (lawful : IsTable db [] item_model columns) (req : CreateMenuItemRequest) (s s' : S) (e : Err)
      → create_menu_item st db rfc3339 req s ≡ (fails e, s')
      → (s' ≡ s) × (code_of st e ≡ some internal)
  unfolding create_menu_item
  create_menu_item_atomic lawful req s s' e h =
      let (d, refused, is_d) = writes-fails _ _ (db.create (new_menu_item req)) s s' e h in
      (
        lawful.create_atomic (new_menu_item req) s s' d refused,
        rw is_d (code_of-errorf is internal _),
      )

-- While the table meets Gorm.IsTable: GetMenu after a CreateMenuItem lists the items of a
-- GetMenu before it and the new one, in some order, by their columns.
pub get_menu-create_menu_item :
    {S Err : Type 0} (st : Status Err) (db : Table S MenuItem) (rfc3339 : Time → String)
    (lawful : IsTable db [] item_model columns) (req : CreateMenuItemRequest) (s s' s2 s3 : S)
    (resp : CreateMenuItemResponse) (before after : GetMenuResponse)
    → create_menu_item st db rfc3339 req s ≡ (returns resp, s')
    → get_menu st db rfc3339 (record {}) s ≡ (returns before, s2)
    → get_menu st db rfc3339 (record {}) s' ≡ (returns after, s3)
    → Perm
        (map listed after.menu_items)
        ((req.name, req.description, req.price) ∷ map listed before.menu_items)
unfolding create_menu_item get_menu
get_menu-create_menu_item st db rfc3339 lawful req s s' s2 s3 resp before after h k l =
    let (u, created, _) = writes-returns _ _ (db.create (new_menu_item req)) s s' resp h in
    let (us, all, is_us, _) = reads-returns _ _ (db.find []) s s2 before k in
    let (us', all', is_us', _) = reads-returns _ _ (db.find []) s' s3 after l in
    rw (is_us, is_us', listed-model_to_proto rfc3339 us, listed-model_to_proto rfc3339 us')
      (lawful.create_find (new_menu_item req) u s s' us us' refl created all all')
