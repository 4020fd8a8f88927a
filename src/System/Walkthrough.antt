-- ===== src/System/Walkthrough.antt =====
-- Requests in sequence through the gateway: POST /api/users, then GET /api/users/{id}.
use ss2025_web.Base.{
  ◌≢◌, ℕ, ◌≡◌, sym, ap, ◌∙◌, inl, inr, Bool, true, some, arith, Option-cases, Result, ok, err,
}
use ss2025_web.Base.Decimal.{decimal, parse_uint32-decimal}
use ss2025_web.Rpc.{Status, Rpc, returns, fails, panics, dial}
use ss2025_web.User.{UserMessage, CreateUserRequest, CreateUserResponse, GetUserResponse}
use ss2025_web.User.Server as UserServer
use ss2025_web.User.RoundTrip.{Carries, get_user-create_user}
use ss2025_web.Http.Reply.{json_reply}
use ss2025_web.Http.Handler.{Conn, run}
use ss2025_web.Gateway.{Json}
use ss2025_web.Gateway.Routes.{Endpoint, Request, handle}
use ss2025_web.Gateway.Promise.{relay, from_id}
use ss2025_web.Gateway.Relay.{handle_relays}
use ss2025_web.Gateway.Users.{UserBody}
use ss2025_web.System.Lens.{World}
use ss2025_web.System.{Deployment, users_table, gateway_clients}
use ss2025_web.System.Lawful.{IsLawful, users_law, users_fit}

abbrev pub answered : {S : Type 0} → ℕ → Json → S → Conn S Json
answered code v s = record { state = s; writer = json_reply code v }

-- A JSON reply comes from a call that succeeded.
pub relay_inv :
    {S Err A : Type 0} (st : Status Err) (v : A → Json) (p : Result Err A × S) (s' : S) (j : Json)
    → relay st 201 v p ≡ answered 201 j s'
    → (a : A) × (p ≡ (ok a, s')) × (v a ≡ j)
relay_inv st v (ok a, s) s' j h = (a, ground arith, ground arith)
relay_inv st v (err e, s) s' j h = elim (Option-cases (st.from_error e)) [
  | inl k ↦ absurd (ground arith)
  | inr (c, k) ↦ absurd (ground arith)
]

pub dial-ok :
    {S Err Req Resp : Type 0} (lost : Err) (rpc : Rpc S Err Req Resp) (q : Req) (s s' : S)
    (a : Resp)
    → dial lost rpc q s ≡ (ok a, s')
    → rpc q s ≡ (returns a, s')
dial-ok lost rpc q s s' a h = ground arith

-- A procedure that does not panic fails where its caller sees an error.
pub dial-err :
    {S Err Req Resp : Type 0} (lost : Err) (rpc : Rpc S Err Req Resp) (q : Req) (s s' : S) (e : Err)
    → (rpc q s).0 ≢ panics
    → dial lost rpc q s ≡ (err e, s')
    → rpc q s ≡ (fails e, s')
dial-err lost rpc q s s' e up h = ground (arith, up)

pub dial_fails :
    {S Err Req Resp : Type 0} (lost : Err) (rpc : Rpc S Err Req Resp) (q : Req) (s s' : S) (e : Err)
    → rpc q s ≡ (fails e, s')
    → dial lost rpc q s ≡ (err e, s')
dial_fails lost rpc q s s' e h = ground arith

pub dial_returns :
    {S Err Req Resp : Type 0} (lost : Err) (rpc : Rpc S Err Req Resp) (q : Req) (s s' : S)
    (a : Resp)
    → rpc q s ≡ (returns a, s')
    → dial lost rpc q s ≡ (ok a, s')
dial_returns lost rpc q s s' a h = ground arith

-- The request that the gateway makes of a body.
abbrev pub user_request : UserBody → CreateUserRequest
user_request b = record { name = b.name; email = b.email; is_cafe_owner = b.is_cafe_owner }

module _ {U M O Err : Type 0} (d : Deployment U M O Err) (law : IsLawful d) (marshals : Json → Bool)
    (all : (v : Json) → marshals v ≡ true) where
  -- In a deployment whose status package and tables meet Rpc.IsStatus and Gorm.IsTable and whose
  -- IDs have 32 bits, while every value can be marshalled: a POST of a user that is answered with
  -- 201 is answered with a user that carries the columns of the body, and a GET of the ID in that
  -- answer, written in decimal, is answered with 200 and a user of the same ID and columns. The
  -- GET changes nothing.
  pub get_user_after_create_user :
      (r : Request) (b : UserBody) (w w' : World U M O) (j : Json)
      → run
          (handle d.status
            (gateway_clients d)
            marshals
            Endpoint.create_user
            (record r { user_body = ok b }))
          w
        ≡ answered 201 j w'
      → (msg : UserMessage) × (msg' : UserMessage) × (j ≡ Json.user (some msg))
        × Carries (user_request b) msg
        × (run
              (handle d.status
                (gateway_clients d)
                marshals
                Endpoint.get_user
                (record r { id = decimal msg.id }))
              w'
            ≡ answered 200 (Json.user (some msg')) w')
        × (msg'.id ≡ msg.id)
        × Carries (user_request b) msg'
  get_user_after_create_user r b w w' j h =
      let posted : Request = record r { user_body = ok b } in
      let (a, called, shown) =
        relay_inv d.status (λ (a : CreateUserResponse). Json.user a.user)
          ((gateway_clients d).user_client.create_user (user_request b) w) w' j
          (sym (
              handle_relays d.status marshals all (gateway_clients d) Endpoint.create_user posted w)
            ∙ h) in
      let (msg, msg', answer, carries, found, same, carries', small) =
        get_user-create_user d.status (users_table d) d.rfc3339 (users_law law) (users_fit law)
          (user_request b) w w' a
          (dial-ok d.lost (UserServer.create_user d.status (users_table d) d.rfc3339)
            (user_request b) w w' a called) in
      let asked : Request = record r { id = decimal msg.id } in
      (
        msg,
        msg',
        sym shown ∙ ap Json.user answer,
        carries,
        handle_relays d.status marshals all (gateway_clients d) Endpoint.get_user asked w'
            ∙ ap
                (λ o.
                  from_id o "invalid user ID"
                    (λ n w.
                      relay d.status 200 (λ (a : GetUserResponse). Json.user a.user)
                        ((gateway_clients d).user_client.get_user (record { id = n }) w))
                    w')
                (parse_uint32-decimal msg.id small)
            ∙ ap (λ p. relay d.status 200 (λ (a : GetUserResponse). Json.user a.user) p)
                (dial_returns d.lost (UserServer.get_user d.status (users_table d) d.rfc3339)
                  (record { id = msg.id }) w' w' (record { user = some msg' }) found),
        same,
        carries',
      )
