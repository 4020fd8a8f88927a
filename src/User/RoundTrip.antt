-- ===== src/User/RoundTrip.antt =====
-- CreateUser followed by GetUser, of user-service/grpc/server.go.
use Prim.Native.String.{String}
use ss2025_web.Base.{ℕ, ◌^◌, ◌<◌, Bool, ◌≡◌, refl, some, [], ok, arith, Result-cases, inl, inr, ◌∙◌}
use ss2025_web.Base.Word.{to_u32-lt, to_u32_small}
use ss2025_web.Gorm.{Time, Model, Table, IsTable}
use ss2025_web.Rpc.{Status, returns}
use ss2025_web.User.{User, UserMessage, CreateUserRequest, CreateUserResponse}
use ss2025_web.User.Server.{model_to_proto, new_user, create_user, get_user}

-- The columns of a row that a request sets.
abbrev pub columns : User → String × String × Bool
columns u = (u.name, u.email, u.is_cafe_owner)

abbrev pub user_id : User → ℕ
user_id u = u.model.id

abbrev pub user_model : User → Model
user_model u = u.model

-- A message carries the columns of a request.
pub record Carries (req : CreateUserRequest) (msg : UserMessage) : Type 0 where
  pub name : msg.name ≡ req.name
  pub email : msg.email ≡ req.email
  pub is_cafe_owner : msg.is_cafe_owner ≡ req.is_cafe_owner

-- The IDs that the table hands out are numbers of 32 bits.
abbrev pub IdsFit : {S : Type 0} → Table S User → Type 0
IdsFit {S} db = (m m' : User) (s s' : S) → db.create m s ≡ (ok m', s') → m'.model.id < 2 ^ 32

module _ {S Err : Type 0} (st : Status Err) (db : Table S User) (rfc3339 : Time → String)
    (lawful : IsTable db [] user_model columns) (fits : IdsFit db) where
  pub create_user-returns :
      (req : CreateUserRequest) (s s' : S) (resp : CreateUserResponse)
      → create_user st db rfc3339 req s ≡ (returns resp, s')
      → (u : User) × (db.create (new_user req) s ≡ (ok u, s'))
        × (resp.user ≡ some (model_to_proto rfc3339 u))
  unfolding create_user
  create_user-returns req s s' resp e = elim (Result-cases (db.create (new_user req) s).0) [
    | inl (u, created) ↦ (u, ground arith, ground arith)
    | inr (d, refused) ↦ absurd (ground arith)
  ]

  model_to_proto-Carries :
      (req : CreateUserRequest) (u : User)
      → columns u ≡ columns (new_user req)
      → Carries req (model_to_proto rfc3339 u)
  unfolding model_to_proto
  model_to_proto-Carries req u e = ground arith

  -- While the table meets Gorm.IsTable and hands out IDs of 32 bits: a user that CreateUser
  -- returned carries the columns of the request and an ID of 32 bits, and GetUser of that ID
  -- returns a user with the same ID and columns and changes nothing.
  pub get_user-create_user :
      (req : CreateUserRequest) (s s' : S) (resp : CreateUserResponse)
      → create_user st db rfc3339 req s ≡ (returns resp, s')
      → (msg msg' : UserMessage) × (resp.user ≡ some msg)
        × Carries req msg
        × (get_user st db rfc3339 (record { id = msg.id }) s'
            ≡ (returns (record { user = some msg' }), s'))
        × (msg'.id ≡ msg.id)
        × Carries req msg'
        × (msg.id < 2 ^ 32)
  get_user-create_user req s s' resp e =
      let (u, created, answer) = create_user-returns req s s' resp e in
      let (r, found, same_id, same) = lawful.create_first (new_user req) u s s' refl created in
      let given = lawful.create_view (new_user req) u s s' created in
      let small : (model_to_proto rfc3339 u).id ≡ u.model.id =
        unfold model_to_proto in to_u32_small u.model.id (fits _ u s s' created) in
      (
        model_to_proto rfc3339 u,
        model_to_proto rfc3339 r,
        answer,
        model_to_proto-Carries req u given,
        rw small (unfold get_user in rw found refl),
        unfold model_to_proto in (rw same_id refl),
        model_to_proto-Carries req r (same ∙ given),
        unfold model_to_proto in to_u32-lt u.model.id,
      )
