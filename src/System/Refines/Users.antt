-- ===== src/System/Refines/Users.antt =====
-- The endpoints for users, beside the abstract cafe.
use Prim.Native.String.{String}
use ss2025_web.Base.{
  ◌≢◌, ℕ, ◌<◌, ◌^◌, ◌≡◌, refl, ap, ◌∙◌, inl, inr, ◌⊎◌, some, [], ok, err, arith, Result-cases,
}
use ss2025_web.Base.Word.{to_u32_small}
use ss2025_web.Gorm.{Time, DbError, record_not_found}
use ss2025_web.Rpc.{panics, code_of-errorf, internal, not_found}
use ss2025_web.Rpc.Inversion.{writes-ne-panics}
use ss2025_web.User.{User, CreateUserRequest, CreateUserResponse, GetUserResponse}
use ss2025_web.User.Server as UserServer
use ss2025_web.User.RoundTrip.{create_user-returns, columns, user_model}
use ss2025_web.User.Errors.{create_user_atomic}
use ss2025_web.Http.Reply.{json_reply}
use ss2025_web.Gateway.{Json}
use ss2025_web.Gateway.Promise.{relay, grpc_error_reply}
use ss2025_web.Gateway.Seen.{seen, seen-grpc_error_reply}
use ss2025_web.Spec.{
  shows, refused, added, failed, there, missing, Serves, add_user, show_user, account,
}
use ss2025_web.System.Lens.{World}
use ss2025_web.System.{Deployment, user_client, users_table}
use ss2025_web.System.Lawful.{IsLawful, users_law, users_fit}
use ss2025_web.System.Shelves.{
  shelf_fresh, shelf-create, same_users, same_menu, same_orders, shop_of, look,
}
use ss2025_web.System.Answers.{row_user, missing_user}
use ss2025_web.System.Walkthrough.{dial-ok, dial-err}

shown_user :
    (rfc3339 : Time → String) (code : ℕ) (u : User)
    → u.model.id < 2 ^ 32
    → seen (json_reply code (Json.user (some (UserServer.model_to_proto rfc3339 u))))
      ≡ shows code (account u.model.id (columns u))
unfolding UserServer.model_to_proto
shown_user rfc3339 code u small =
    ap (λ i. shows code (account i (columns u))) (to_u32_small u.model.id small)

module _ {U M O Err : Type 0} (d : Deployment U M O Err) (law : IsLawful d) where
  user_added :
      (q : CreateUserRequest) (w w' : World U M O) (a : CreateUserResponse)
      → (user_client d).create_user q w ≡ (ok a, w')
      → Serves
          (add_user (q.name, q.email, q.is_cafe_owner))
          (shop_of d w)
          (seen (json_reply 201 (Json.user a.user)))
          (shop_of d w')
  user_added q w w' a h =
      let (u, made, answer) =
        create_user-returns d.status (users_table d) d.rfc3339 (users_law law) (users_fit law) q w
          w' a
          (dial-ok d.lost (UserServer.create_user d.status (users_table d) d.rfc3339) q w w' a h) in
      let stored : d.users.create (UserServer.new_user q) w.users ≡ (ok u, w'.users) =
        ground (arith, made) in
      let small = law.user_ids (UserServer.new_user q) u w.users w'.users stored in
      let same = law.users.create_view (UserServer.new_user q) u w.users w'.users stored in
      (
        added u.model.id
            (shelf_fresh d.users [] user_model columns law.users (λ c. c) (UserServer.new_user q) u
              w.users w'.users stored)
            (ap (λ o. seen (json_reply 201 (Json.user o))) answer
              ∙ shown_user d.rfc3339 201 u small
              ∙ ap (λ c. shows 201 (account u.model.id c)) same)
            (shelf-create d.users [] user_model columns law.users (λ c. c) (UserServer.new_user q) u
              w.users w'.users refl stored),
        same_menu d w w' (ground (arith, made)),
        same_orders d w w' (ground (arith, made)),
      )

  user_refused :
      (q : CreateUserRequest) (w w' : World U M O) (e : Err)
      → (user_client d).create_user q w ≡ (err e, w')
      → Serves
          (add_user (q.name, q.email, q.is_cafe_owner))
          (shop_of d w)
          (seen (grpc_error_reply d.status e))
          (shop_of d w')
  user_refused q w w' e h =
      let up : (UserServer.create_user d.status (users_table d) d.rfc3339 q w).0 ≢ panics =
        unfold UserServer.create_user in
        writes-ne-panics _ _ ((users_table d).create (UserServer.new_user q)) w in
      let (same, code) =
        create_user_atomic law.status (users_table d) d.rfc3339 (users_law law) q w w' e (
          dial-err d.lost (UserServer.create_user d.status (users_table d) d.rfc3339) q w w' e up
            h) in
      (
        failed (seen-grpc_error_reply d.status e internal code)
            (same_users d w w' (ap (λ v. v.users) same)),
        same_menu d w w' (ap (λ v. v.menu) same),
        same_orders d w w' (ap (λ v. v.orders) same),
      )

  pub create_user-Serves :
      (q : CreateUserRequest) (w : World U M O)
      → let c =
          relay d.status 201
            (λ (a : CreateUserResponse). Json.user a.user)
            ((user_client d).create_user q w) in
        Serves
          (add_user (q.name, q.email, q.is_cafe_owner))
          (shop_of d w)
          (seen c.writer)
          (shop_of d c.state)
  create_user-Serves q w =
      let w' = ((user_client d).create_user q w).1 in
      elim (Result-cases ((user_client d).create_user q w).0) [
        | inl (a, e) ↦
            let h : (user_client d).create_user q w ≡ (ok a, w') = ap (λ r. (r, w')) e in
            rw h (user_added q w w' a h)
        | inr (e, k) ↦
            let h : (user_client d).create_user q w ≡ (err e, w') = ap (λ r. (r, w')) k in
            rw h (user_refused q w w' e h)
      ]

  row_missing :
      (x : DbError)
      → (seen (
            grpc_error_reply d.status
              (UserServer.get_user_error d.status (users_table d) d.rfc3339 x))
          ≡ refused 404)
        ⊎ (seen (
              grpc_error_reply d.status
                (UserServer.get_user_error d.status (users_table d) d.rfc3339 x))
            ≡ refused 500)
  unfolding UserServer.get_user_error
  row_missing record_not_found = inl (
      seen-grpc_error_reply d.status _ not_found
        (code_of-errorf law.status not_found "user not found"))
  row_missing (DbError.failed m) =
      inr (seen-grpc_error_reply d.status _ internal (code_of-errorf law.status internal _))

  pub get_user-Serves :
      (i : ℕ) (w : World U M O)
      → i < 2 ^ 32
      → let c =
          relay d.status 200
            (λ (a : GetUserResponse). Json.user a.user)
            ((user_client d).get_user (record { id = i }) w) in
        Serves (show_user i) (shop_of d w) (seen c.writer) (shop_of d c.state)
  get_user-Serves i w small = elim (Result-cases (d.users.first [] i w.users)) [
    | inl (u, e) ↦
        let same = law.users.first_id i w.users u e in
        rw (row_user d.status d.rfc3339 d.lost (users_table d) i w u e) (
          there (columns u) (ap (look columns) e) (
              shown_user d.rfc3339 200 u (rw same small)
              ∙ ap (λ j. shows 200 (account j (columns u))) same),
          refl,
        )
    | inr (x, e) ↦
        rw (missing_user d.status d.rfc3339 d.lost (users_table d) i w x e)
          (missing (ap (look columns) e) (row_missing x), refl)
  ]
