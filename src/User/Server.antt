-- ===== src/User/Server.antt =====
-- user-service/grpc/server.go
use Prim.Native.String.{String}
use ss2025_web.Base.{some, [], map, format_v}
use ss2025_web.Base.Word.{to_u32}
use ss2025_web.Gorm.{Time, Table, DbError, record_not_found, failed, zero_model}
use ss2025_web.Rpc.{Status, Rpc, internal, not_found, pure, call, query, or_raise, ◌>>=◌}
use ss2025_web.User.{
  User, UserMessage, CreateUserRequest, CreateUserResponse, GetUserRequest, GetUserResponse,
  GetUsersRequest, GetUsersResponse,
}

-- `modelToProto`
unfoldable pub model_to_proto : (Time → String) → User → UserMessage
model_to_proto rfc3339 user = record {
  id = to_u32 user.model.id;
  name = user.name;
  email = user.email;
  is_cafe_owner = user.is_cafe_owner;
  created_at = rfc3339 user.model.created_at;
  updated_at = rfc3339 user.model.updated_at;
}

-- The row that a request stands for.
abbrev pub new_user : CreateUserRequest → User
new_user req = record {
  model = zero_model;
  name = req.name;
  email = req.email;
  is_cafe_owner = req.is_cafe_owner;
}

module _ {S Err : Type 0} (st : Status Err) (db : Table S User) (rfc3339 : Time → String) where
  unfoldable pub create_user : Rpc S Err CreateUserRequest CreateUserResponse
  create_user req = do
    created ← call (db.create (new_user req))
    user' ←
        or_raise created
          (λ e. st.errorf internal (format_v "failed to create user: " (db.error_text e)))
    pure (record { user = some (model_to_proto rfc3339 user') })

  -- `err == gorm.ErrRecordNotFound`
  unfoldable pub get_user_error : DbError → Err
  get_user_error record_not_found = st.errorf not_found "user not found"
  get_user_error (failed m) =
      st.errorf internal (format_v "failed to get user: " (db.error_text (failed m)))

  unfoldable pub get_user : Rpc S Err GetUserRequest GetUserResponse
  unfolding get_user_error
  get_user req = do
    found ← query (db.first [] req.id)
    user ← or_raise found get_user_error
    pure (record { user = some (model_to_proto rfc3339 user) })

  unfoldable pub get_users : Rpc S Err GetUsersRequest GetUsersResponse
  get_users req = do
    found ← query (db.find [])
    users ←
        or_raise found
          (λ e. st.errorf internal (format_v "failed to get users: " (db.error_text e)))
    pure (record { users = map (model_to_proto rfc3339) users })
