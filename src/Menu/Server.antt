-- ===== src/Menu/Server.antt =====
-- menu-service/grpc/server.go
use Prim.Native.String.{String}
use ss2025_web.Base.{some, [], map, format_v}
use ss2025_web.Base.Word.{to_u32}
use ss2025_web.Gorm.{Time, Table, DbError, record_not_found, failed, zero_model}
use ss2025_web.Rpc.{Status, Rpc, internal, not_found, pure, call, query, or_raise, ◌>>=◌}
use ss2025_web.Menu.{
  MenuItem, MenuItemMessage, CreateMenuItemRequest, CreateMenuItemResponse, GetMenuItemRequest,
  GetMenuItemResponse, GetMenuRequest, GetMenuResponse,
}

-- `modelToProto`
unfoldable pub model_to_proto : (Time → String) → MenuItem → MenuItemMessage
model_to_proto rfc3339 item = record {
  id = to_u32 item.model.id;
  name = item.name;
  description = item.description;
  price = item.price;
  created_at = rfc3339 item.model.created_at;
  updated_at = rfc3339 item.model.updated_at;
}

-- The row that a request stands for.
abbrev pub new_menu_item : CreateMenuItemRequest → MenuItem
new_menu_item req = record {
  model = zero_model;
  name = req.name;
  description = req.description;
  price = req.price;
}

module _ {S Err : Type 0} (st : Status Err) (db : Table S MenuItem) (rfc3339 : Time → String) where
  unfoldable pub create_menu_item : Rpc S Err CreateMenuItemRequest CreateMenuItemResponse
  create_menu_item req = do
    created ← call (db.create (new_menu_item req))
    item' ←
        or_raise created
          (λ e. st.errorf internal (format_v "failed to create menu item: " (db.error_text e)))
    pure (record { menu_item = some (model_to_proto rfc3339 item') })

  -- `err == gorm.ErrRecordNotFound`
  unfoldable pub get_menu_item_error : DbError → Err
  get_menu_item_error record_not_found = st.errorf not_found "menu item not found"
  get_menu_item_error (failed m) =
      st.errorf internal (format_v "failed to get menu item: " (db.error_text (failed m)))

  unfoldable pub get_menu_item : Rpc S Err GetMenuItemRequest GetMenuItemResponse
  unfolding get_menu_item_error
  get_menu_item req = do
    found ← query (db.first [] req.id)
    item ← or_raise found get_menu_item_error
    pure (record { menu_item = some (model_to_proto rfc3339 item) })

  unfoldable pub get_menu : Rpc S Err GetMenuRequest GetMenuResponse
  get_menu req = do
    found ← query (db.find [])
    items ←
        or_raise found (λ e. st.errorf internal (format_v "failed to get menu: " (db.error_text e)))
    pure (record { menu_items = map (model_to_proto rfc3339) items })
