-- ===== src/Gateway/Users.antt =====
-- api-gateway/handlers/user_handlers.go
use Prim.Native.String.{String}
use ss2025_web.Base.Decimal.{parse_uint32}
use ss2025_web.Base.Word.{to_u32}
use ss2025_web.Base.{Bool, Result}
use ss2025_web.Rpc.{Status}
use ss2025_web.Http.{status_bad_request, status_created}
use ss2025_web.Http.Handler.{Handler, fail, or_fail, or_none, call, respond, set_json, ◌>>=◌, ◌>>◌}
use ss2025_web.Gateway.{ServiceClients, Json, handle_grpc_error}
use ss2025_web.Http.{write_header, encode}

-- The anonymous struct that the body is decoded into.
pub record UserBody : Type 0 where
  pub name : String
  pub email : String
  pub is_cafe_owner : Bool

module _ {S Err : Type 0} (st : Status Err) (clients : ServiceClients S Err)
    (marshals : Json → Bool) where
  unfoldable pub create_user : Result String UserBody → Handler S Json (Unit {0})
  create_user body = do
    req ← or_fail body (λ _. fail "invalid request body" status_bad_request)
    answer ← call (
        clients.user_client.create_user
          (record { name = req.name; email = req.email; is_cafe_owner = req.is_cafe_owner }))
    resp ← or_fail answer (handle_grpc_error st)
    set_json
    respond (write_header status_created)
    respond (encode marshals (Json.user resp.user))

  -- The parameter is the part `{id}` of the path.
  unfoldable pub get_user : String → Handler S Json (Unit {0})
  get_user id_str = do
    id ← or_none (parse_uint32 id_str) (fail "invalid user ID" status_bad_request)
    answer ← call (clients.user_client.get_user (record { id = to_u32 id }))
    resp ← or_fail answer (handle_grpc_error st)
    set_json
    respond (encode marshals (Json.user resp.user))

  unfoldable pub get_users : Handler S Json (Unit {0})
  get_users = do
    answer ← call (clients.user_client.get_users (record {}))
    resp ← or_fail answer (handle_grpc_error st)
    set_json
    respond (encode marshals (Json.users resp.users))
