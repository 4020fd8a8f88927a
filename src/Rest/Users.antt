-- ===== src/Rest/Users.antt =====
-- practical5/user-service/handlers/user_handlers.go (the same text is in practical6-example). A
-- handler's parameter is what decoding the body gives, or the part `{id}` of the path.
use Prim.Native.String.{String}
use ss2025_web.Base.{Bool, [], Result}
use ss2025_web.Gorm.{Table}
use ss2025_web.User.{User}
use ss2025_web.Http.{
  write_header, encode, status_bad_request, status_created, status_not_found,
  status_internal_server_error,
}
use ss2025_web.Http.Handler.{Handler, fail, or_fail, call, query, respond, set_json, ◌>>=◌, ◌>>◌}
use ss2025_web.Rest.{Value}

module _ {S : Type 0} (db : Table S User) (marshals : Value → Bool) where
  unfoldable pub create_user : Result String User → Handler S Value (Unit {0})
  create_user body = do
    user ← or_fail body (λ e. fail e status_bad_request)
    created ← call (db.create user)
    user' ← or_fail created (λ e. fail (db.error_text e) status_internal_server_error)
    set_json
    respond (write_header status_created)
    respond (encode marshals (Value.user user'))

  -- The text of the path is the inline condition of `First`.
  unfoldable pub get_user : String → Handler S Value (Unit {0})
  get_user id = do
    found ← query (db.first_raw id)
    user ← or_fail found (λ _. fail "User not found" status_not_found)
    set_json
    respond (encode marshals (Value.user user))

  unfoldable pub get_users : Handler S Value (Unit {0})
  get_users = do
    found ← query (db.find [])
    users ← or_fail found (λ e. fail (db.error_text e) status_internal_server_error)
    set_json
    respond (encode marshals (Value.users users))
