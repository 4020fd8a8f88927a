-- ===== src/Rest/Menus.antt =====
-- practical5/menu-service/handlers/menu_handlers.go (the same text is in practical6-example).
use Prim.Native.String.{String}
use ss2025_web.Base.{Bool, Result}
use ss2025_web.Gorm.{Table}
use ss2025_web.Menu.{Menu}
use ss2025_web.Http.{
  write_header, encode, status_bad_request, status_created, status_not_found,
  status_internal_server_error,
}
use ss2025_web.Http.Handler.{Handler, fail, or_fail, call, query, respond, set_json, ◌>>=◌, ◌>>◌}
use ss2025_web.Rest.{Value}

module _ {S : Type 0} (db : Table S Menu) (marshals : Value → Bool) where
  -- The parameter is the part `{id}` of the path.
  unfoldable pub get_menu : String → Handler S Value (Unit {0})
  get_menu id = do
    found ← query (db.first_bound id)
    menu ← or_fail found (λ _. fail "Menu not found" status_not_found)
    set_json
    respond (encode marshals (Value.menu menu))

  unfoldable pub create_menu : Result String Menu → Handler S Value (Unit {0})
  create_menu body = do
    menu ← or_fail body (λ e. fail e status_bad_request)
    created ← call (db.create menu)
    menu' ← or_fail created (λ e. fail (db.error_text e) status_internal_server_error)
    set_json
    respond (write_header status_created)
    respond (encode marshals (Value.menu menu'))
