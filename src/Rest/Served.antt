-- ===== src/Rest/Served.antt =====
-- The services of practical6-example over the rows of the monolith.
use ss2025_web.Rpc.{dial, Status}
use ss2025_web.Base.{ℕ, ◌≡◌, refl, ◌∙◌, some, [], ok, err, arith}
use Prim.Native.String.{String}
use ss2025_web.Gorm.{Time, Table, DbError}
use ss2025_web.Menu.{MenuItem, GetMenuItemRequest}
use ss2025_web.User.{GetUserResponse, User, GetUserRequest}
use ss2025_web.Order.Server.{OrderServer}
use ss2025_web.Rest.{Customer}
use ss2025_web.User.Server as UserServer
use ss2025_web.Menu.Server as MenuServer
use ss2025_web.Rest.Migration.{SameRows}

-- The services of practical6-example, over the monolith's menu and over users who exist in both
-- tables or in neither, answer about the monolith's rows.
module _ {S Err : Type 0} (st : Status Err) (rfc3339 : Time → String) (lost : Err)
    (users : Table S Customer) (accounts : Table S User) (menu : Table S MenuItem)
    (srv : OrderServer S Err)
    (asks_users : (q : GetUserRequest) (s : S)
      → srv.user_client.get_user q s ≡ dial lost (UserServer.get_user st accounts rfc3339) q s)
    (asks_menu : (q : GetMenuItemRequest) (s : S)
      → srv.menu_client.get_menu_item q s
        ≡ dial lost (MenuServer.get_menu_item st menu rfc3339) q s)
    (moved : (i : ℕ) (s : S) (u : Customer)
      → users.first [] i s ≡ ok u
      → (a : User) × (accounts.first [] i s ≡ ok a))
    (not_moved : (i : ℕ) (s : S) (d : DbError)
      → users.first [] i s ≡ err d
      → (e : DbError) × (accounts.first [] i s ≡ err e)) where
  user_found :
      (i : ℕ) (s : S) (a : User)
      → accounts.first [] i s ≡ ok a
      → (resp : GetUserResponse) × (srv.user_client.get_user (record { id = i }) s ≡ (ok resp, s))
  user_found i s a h = (
    record { user = some (UserServer.model_to_proto rfc3339 a) },
    asks_users (record { id = i }) s ∙ unfold UserServer.get_user in ground arith,
  )

  user_missing :
      (i : ℕ) (s : S) (d : DbError)
      → accounts.first [] i s ≡ err d
      → (e : Err) × (srv.user_client.get_user (record { id = i }) s ≡ (err e, s))
  user_missing i s d h = (
    UserServer.get_user_error st accounts rfc3339 d,
    asks_users (record { id = i }) s ∙ unfold UserServer.get_user in ground arith,
  )

  pub served-SameRows : SameRows users menu srv
  served-SameRows = record {
    known = λ i s u small h. let (a, k) = moved i s u h in user_found i s a k;
    unknown = λ i s d small h. let (e, k) = not_moved i s d h in user_missing i s e k;
    listed = λ i s m small h. (
      MenuServer.model_to_proto rfc3339 m,
      asks_menu (record { id = i }) s ∙ unfold MenuServer.get_menu_item in ground arith,
      unfold MenuServer.model_to_proto in refl,
    );
    unlisted = λ i s d small h. (
      MenuServer.get_menu_item_error st menu rfc3339 d,
      asks_menu (record { id = i }) s ∙ unfold MenuServer.get_menu_item in ground arith,
    );
  }
