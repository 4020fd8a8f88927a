-- ===== src/User/Handlers.antt =====
-- user-service/handlers/user_handlers.go of practical6-example: the text of practical5, over the same
-- model. No main function serves these handlers.
use Prim.Native.String.{String}
use ss2025_web.Base.{Bool, Result}
use ss2025_web.Gorm.{Table}
use ss2025_web.User.{User}
use ss2025_web.Http.Handler.{Handler}
use ss2025_web.Rest.{Value}
use ss2025_web.Rest.Users

module _ {S : Type 0} (db : Table S User) (marshals : Value → Bool) where
  abbrev pub create_user : Result String User → Handler S Value (Unit {0})
  create_user = Users.create_user db marshals

  abbrev pub get_user : String → Handler S Value (Unit {0})
  get_user = Users.get_user db marshals

  abbrev pub get_users : Handler S Value (Unit {0})
  get_users = Users.get_users db marshals
