-- ===== src/Gateway/Replies.antt =====
-- The replies of the gateway to every request.
use ss2025_web.Gateway.{http_status, Option, ServiceClients, Json}
use ss2025_web.Base.{
  refl, inl, inr, none, some, ok, err, true, ◌≡◌, ℕ, Option-cases, Bool, arith, Result,
}
use ss2025_web.Gateway.Promise.{from_id, from_body, relay, promised, grpc_error_reply}
use ss2025_web.Gateway.Relay.{handle_relays}
use ss2025_web.Http.Reply.{error_reply, Replied, fetched, created, refused}
use ss2025_web.Gateway.Routes.{Endpoint, Request, handle}
use ss2025_web.Gateway.Codes.{http_status_bounds}
use ss2025_web.Http.Handler.{Conn, run}
use ss2025_web.Base.Decimal.{parse_uint32}
use ss2025_web.Rpc.{Status}
use Prim.Native.String.{String}

grpc_error_reply-Replied :
    {Err : Type 0} (st : Status Err) (e : Err) → Replied (grpc_error_reply st e)
grpc_error_reply-Replied st e = elim (Option-cases (st.from_error e)) [
  | inl k ↦ rw (k, grpc_error_reply) (refused "internal server error" 500 (omega arith) refl)
  | inr ((c, m), k) ↦
      rw (k, grpc_error_reply) (refused m (http_status c) (http_status_bounds c).0 refl)
]

turned_away : (message : String) → Replied {J = Json} (error_reply message 400)
turned_away message = refused message 400 (omega arith) refl

module _ {S Err : Type 0} (st : Status Err) where
  relay_created-Replied :
      {A : Type 0} (v : A → Json) (p : Result Err A × S) → Replied (relay st 201 v p).writer
  relay_created-Replied v (ok a, s) = created (v a) refl
  relay_created-Replied v (err e, s) = grpc_error_reply-Replied st e

  relay_fetched-Replied :
      {A : Type 0} (v : A → Json) (p : Result Err A × S) → Replied (relay st 200 v p).writer
  relay_fetched-Replied v (ok a, s) = fetched (v a) refl
  relay_fetched-Replied v (err e, s) = grpc_error_reply-Replied st e

from_id-Replied :
    {S : Type 0} (o : Option ℕ) (message : String) (k : ℕ → S → Conn S Json) (s : S)
    → ((n : ℕ) → Replied (k n s).writer)
    → Replied (from_id o message k s).writer
from_id-Replied none message k s h = turned_away message
from_id-Replied (some n) message k s h = h n

from_body-Replied :
    {S B : Type 0} (b : Result String B) (k : B → S → Conn S Json) (s : S)
    → ((c : B) → Replied (k c s).writer)
    → Replied (from_body b k s).writer
from_body-Replied (ok c) k s h = h c
from_body-Replied (err m) k s h = turned_away "invalid request body"

module _ {S Err : Type 0} (st : Status Err) (clients : ServiceClients S Err) where
  promised-Replied :
      (e : Endpoint) (r : Request) (s : S) → Replied (promised st clients e r s).writer
  promised-Replied Endpoint.create_user r s =
      from_body-Replied r.user_body _ s (λ b. relay_created-Replied st _ _)
  promised-Replied Endpoint.get_user r s =
      from_id-Replied (parse_uint32 r.id) _ _ s (λ n. relay_fetched-Replied st _ _)
  promised-Replied Endpoint.get_users r s = relay_fetched-Replied st _ _
  promised-Replied Endpoint.create_menu_item r s =
      from_body-Replied r.item_body _ s (λ b. relay_created-Replied st _ _)
  promised-Replied Endpoint.get_menu_item r s =
      from_id-Replied (parse_uint32 r.id) _ _ s (λ n. relay_fetched-Replied st _ _)
  promised-Replied Endpoint.get_menu r s = relay_fetched-Replied st _ _
  promised-Replied Endpoint.create_order r s =
      from_body-Replied r.order_body _ s (λ b. relay_created-Replied st _ _)
  promised-Replied Endpoint.get_order r s =
      from_id-Replied (parse_uint32 r.id) _ _ s (λ n. relay_fetched-Replied st _ _)
  promised-Replied Endpoint.get_orders r s = relay_fetched-Replied st _ _

-- While every value can be marshalled, every handler sends one whole reply: JSON under 200 or 201, or
-- a text under a status of 400 or more.
pub handle-Replied :
    {S Err : Type 0} (st : Status Err) (clients : ServiceClients S Err) (marshals : Json → Bool)
    (all : (v : Json) → marshals v ≡ true) (e : Endpoint) (r : Request) (s : S)
    → Replied (run (handle st clients marshals e r) s).writer
handle-Replied st clients marshals all e r s =
    rw (handle_relays st marshals all clients e r s) (promised-Replied st clients e r s)
