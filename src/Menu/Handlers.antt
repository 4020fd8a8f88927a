-- ===== src/Menu/Handlers.antt =====
-- menu-service/handlers/menu_handlers.go of practical6-example: the text of practical5, over the same
-- model. No main function serves these handlers.
use Prim.Native.String.{String}
use ss2025_web.Base.{Bool, Result}
use ss2025_web.Gorm.{Table}
use ss2025_web.Menu.{Menu}
use ss2025_web.Http.Handler.{Handler}
use ss2025_web.Rest.{Value}
use ss2025_web.Rest.Menus

module _ {S : Type 0} (db : Table S Menu) (marshals : Value → Bool) where
  abbrev pub get_menu : String → Handler S Value (Unit {0})
  get_menu = Menus.get_menu db marshals

  abbrev pub create_menu : Result String Menu → Handler S Value (Unit {0})
  create_menu = Menus.create_menu db marshals
