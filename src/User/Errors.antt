-- ===== src/User/Errors.antt =====
-- The errors of the user server, and what it lists.
use mathlib.Core.List.{Perm}
use Prim.Native.String.{String}
use ss2025_web.Base.{Bool, ◌≡◌, ◌↔◌, refl, some, List, [], ◌∷◌, map, err, ap, format_v}
use ss2025_web.Gorm.{Time, Table, IsTable, DbError, record_not_found, failed}
use ss2025_web.Rpc.{Status, IsStatus, code_of, code_of-errorf, returns, fails, internal, not_found}
use ss2025_web.Rpc.Inversion.{reads-fails, reads-returns, writes-fails, writes-returns}
use ss2025_web.User.{
  User, UserMessage, CreateUserRequest, CreateUserResponse, GetUserRequest, GetUsersResponse,
}
use ss2025_web.User.Server.{
  model_to_proto, new_user, create_user, get_user, get_users, get_user_error,
}
use ss2025_web.User.RoundTrip.{columns, user_model}

-- What a list shows of a user, but for the ID and the times.
abbrev pub listed : UserMessage → String × String × Bool
listed m = (m.name, m.email, m.is_cafe_owner)

listed-model_to_proto :
    (rfc3339 : Time → String) (us : List User)
    → map listed (map (model_to_proto rfc3339) us) ≡ map columns us
unfolding model_to_proto
listed-model_to_proto rfc3339 [] = refl
listed-model_to_proto rfc3339 (u ∷ us) = ap (λ r. columns u ∷ r) (listed-model_to_proto rfc3339 us)

module _ {S Err : Type 0} {st : Status Err} (is : IsStatus st) (db : Table S User)
    (rfc3339 : Time → String) where
  get_user_error-not_found_iff :
      (d : DbError)
      → (code_of st (get_user_error st db rfc3339 d) ≡ some not_found) ↔ (d ≡ record_not_found)
  unfolding get_user_error
  get_user_error-not_found_iff record_not_found =
      (λ _. refl, λ _. code_of-errorf is not_found "user not found")
  get_user_error-not_found_iff (failed m) =
      let e =
        code_of-errorf is internal (format_v "failed to get user: " (db.error_text (failed m))) in
      ((λ h. cc), (λ h. cc))

  -- While the status package gives back the code of an error: a GetUser that fails leaves the
  -- database alone, and its error is NotFound exactly when no row was found.
  pub get_user_errors :
      (req : GetUserRequest) (s s' : S) (e : Err)
      → get_user st db rfc3339 req s ≡ (fails e, s')
      → (s' ≡ s) × ((code_of st e ≡ some not_found) ↔ (db.first [] req.id s ≡ err record_not_found))
  unfolding get_user
  get_user_errors req s s' e h =
      let (d, found, is_d, same) =
        reads-fails (get_user_error st db rfc3339) _ (db.first [] req.id) s s' e h in
      let (to, from) = get_user_error-not_found_iff d in
      (same, rw (is_d, found) ((λ p. ap err (to p)), (λ p. from (cc))))

  -- While the status package gives back the code of an error and a failed insert is rolled back: a
  -- CreateUser that fails has changed nothing, and its error is Internal.
  pub create_user_atomic :
      (lawful : IsTable db [] user_model columns) (req : CreateUserRequest) (s s' : S) (e : Err)
      → create_user st db rfc3339 req s ≡ (fails e, s')
      → (s' ≡ s) × (code_of st e ≡ some internal)
  unfolding create_user
  create_user_atomic lawful req s s' e h =
      let (d, refused, is_d) = writes-fails _ _ (db.create (new_user req)) s s' e h in
      (lawful.create_atomic (new_user req) s s' d refused, rw is_d (code_of-errorf is internal _))

-- While the table meets Gorm.IsTable: GetUsers after a CreateUser lists the users of a
-- GetUsers before it and the new one, in some order, by their columns.
pub get_users-create_user :
    {S Err : Type 0} (st : Status Err) (db : Table S User) (rfc3339 : Time → String)
    (lawful : IsTable db [] user_model columns) (req : CreateUserRequest) (s s' s2 s3 : S)
    (resp : CreateUserResponse) (before after : GetUsersResponse)
    → create_user st db rfc3339 req s ≡ (returns resp, s')
    → get_users st db rfc3339 (record {}) s ≡ (returns before, s2)
    → get_users st db rfc3339 (record {}) s' ≡ (returns after, s3)
    → Perm
        (map listed after.users)
        ((req.name, req.email, req.is_cafe_owner) ∷ map listed before.users)
unfolding create_user get_users
get_users-create_user st db rfc3339 lawful req s s' s2 s3 resp before after h k l =
    let (u, created, _) = writes-returns _ _ (db.create (new_user req)) s s' resp h in
    let (us, all, is_us, _) = reads-returns _ _ (db.find []) s s2 before k in
    let (us', all', is_us', _) = reads-returns _ _ (db.find []) s' s3 after l in
    rw (is_us, is_us', listed-model_to_proto rfc3339 us, listed-model_to_proto rfc3339 us')
      (lawful.create_find (new_user req) u s s' us us' refl created all all')
