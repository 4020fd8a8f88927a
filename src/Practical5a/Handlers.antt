-- ===== src/Practical5a/Handlers.antt =====
-- The REST handlers of the three services of practicals/practical5a, over the response writer.
use Prim.Native.String.{String}
use ss2025_web.Base.{Bool, Result}
use ss2025_web.Gorm.{Table}
use ss2025_web.User.{User}
use ss2025_web.Menu.{Menu}
use ss2025_web.Order.{Order}
use ss2025_web.Order.Server.{OrderServer}
use ss2025_web.Order.Handlers.{OrderBody}
use ss2025_web.Order.Handlers as OrderHandlers
use ss2025_web.Http.Handler.{Handler}
use ss2025_web.Http.Serve.{Serve}
use ss2025_web.Rest.{Value}
use ss2025_web.Rest.Users
use ss2025_web.Rest.Menus

module _ {S : Type 0} (marshals : Value → Bool) where
  module _ (db : Table S User) where
    abbrev pub create_user : Result String User → Handler S Value (Unit {0})
    create_user = Users.create_user db marshals

    abbrev pub get_user : String → Handler S Value (Unit {0})
    get_user = Users.get_user db marshals

    abbrev pub get_users : Handler S Value (Unit {0})
    get_users = Users.get_users db marshals

  module _ (db : Table S Menu) where
    abbrev pub get_menu : String → Handler S Value (Unit {0})
    get_menu = Menus.get_menu db marshals

    abbrev pub create_menu : Result String Menu → Handler S Value (Unit {0})
    create_menu = Menus.create_menu db marshals

  module _ (db : Table S Order) where
    abbrev pub create_order :
        {Err : Type 0} → OrderServer S Err → Result String OrderBody → Serve S Value (Unit {0})
    create_order grpc_clients = OrderHandlers.create_order grpc_clients db marshals

    abbrev pub get_orders : Serve S Value (Unit {0})
    get_orders = OrderHandlers.get_orders db marshals
