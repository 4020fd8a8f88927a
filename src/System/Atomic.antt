-- ===== src/System/Atomic.antt =====
-- Requests that are answered with an error, and the databases behind them.
use ss2025_web.Base.{
  true, Bool, ℕ, ◌≤◌, ◌<◌, ◌≡◌, refl, ◌≢◌, Option, none, some, [], ◌∷◌, arith, Result, ok, err,
}
use Prim.Native.String.{String}
use ss2025_web.Rpc.{Status, Rpc, Call, fails, panics, dial}
use ss2025_web.Rpc.Inversion.{reads_only, writes-ne-panics}
use ss2025_web.User.Server as UserServer
use ss2025_web.Menu.Server as MenuServer
use ss2025_web.Order.Server as OrderServer
use ss2025_web.User.Errors.{create_user_atomic}
use ss2025_web.Menu.Errors.{create_menu_item_atomic}
use ss2025_web.Order.Create.{create_order_atomic}
use ss2025_web.Clients.{ReadsOnly}
use ss2025_web.Http.{status_of}
use ss2025_web.Http.Handler.{Conn, run}
use ss2025_web.Gateway.{Json}
use ss2025_web.Gateway.Routes.{Endpoint, Request, handle}
use ss2025_web.Gateway.Promise.{relay, from_id, from_body, promised}
use ss2025_web.Gateway.Relay.{handle_relays}
use ss2025_web.Base.Decimal.{parse_uint32}
use ss2025_web.System.Lens.{World}
use ss2025_web.System.{
  Deployment, users_table, menu_table, orders_table, user_client, menu_client, order_server,
  order_client, gateway_clients,
}
use ss2025_web.System.Lawful.{IsLawful, users_law, menu_law, orders_law}
use ss2025_web.System.Safety.{user_reads, menu_reads, dial-ReadsOnly, create_order-ne-panics}

-- A call that fails leaves the state alone.
abbrev pub IsAtomic : {S Err Req Resp : Type 0} → Call S Err Req Resp → Type 0
IsAtomic {S} {Err} {Req} rpc = (q : Req) (s s' : S) (e : Err) → rpc q s ≡ (err e, s') → s' ≡ s

dial-IsAtomic :
    {S Err Req Resp : Type 0} (lost : Err) (rpc : Rpc S Err Req Resp)
    → ((q : Req) (s : S) → (rpc q s).0 ≢ panics)
    → ((q : Req) (s s' : S) (e : Err) → rpc q s ≡ (fails e, s') → s' ≡ s)
    → IsAtomic (dial lost rpc)
dial-IsAtomic lost rpc up atomic q s s' e h = ground (arith, up q s, atomic q s s' e)

ReadsOnly-IsAtomic :
    {S Err Req Resp : Type 0} (rpc : Call S Err Req Resp) → ReadsOnly rpc → IsAtomic rpc
ReadsOnly-IsAtomic rpc r q s s' e h = ground (arith, r q s)

module _ {U M O Err : Type 0} (d : Deployment U M O Err) where
  pub get_users-ReadsOnly : ReadsOnly (user_client d).get_users
  unfolding UserServer.get_users
  get_users-ReadsOnly = dial-ReadsOnly d.lost _ (λ q w. reads_only _ _ ((users_table d).find []) w)

  get_users-IsAtomic : IsAtomic (user_client d).get_users
  get_users-IsAtomic = ReadsOnly-IsAtomic (user_client d).get_users get_users-ReadsOnly

  pub get_menu-ReadsOnly : ReadsOnly (menu_client d).get_menu
  unfolding MenuServer.get_menu
  get_menu-ReadsOnly = dial-ReadsOnly d.lost _ (λ q w. reads_only _ _ ((menu_table d).find []) w)

  get_menu-IsAtomic : IsAtomic (menu_client d).get_menu
  get_menu-IsAtomic = ReadsOnly-IsAtomic (menu_client d).get_menu get_menu-ReadsOnly

  pub get_orders-ReadsOnly : ReadsOnly (order_client d).get_orders
  unfolding OrderServer.get_orders
  get_orders-ReadsOnly =
      dial-ReadsOnly d.lost _ (λ q w. reads_only _ _ ((orders_table d).find ("OrderItems" ∷ [])) w)

  get_orders-IsAtomic : IsAtomic (order_client d).get_orders
  get_orders-IsAtomic = ReadsOnly-IsAtomic (order_client d).get_orders get_orders-ReadsOnly

  pub get_order-ReadsOnly : ReadsOnly (order_client d).get_order
  unfolding OrderServer.get_order
  get_order-ReadsOnly =
      dial-ReadsOnly d.lost _
        (λ q w. reads_only _ _ ((orders_table d).first ("OrderItems" ∷ []) q.id) w)

  get_order-IsAtomic : IsAtomic (order_client d).get_order
  get_order-IsAtomic = ReadsOnly-IsAtomic (order_client d).get_order get_order-ReadsOnly

  module _ (law : IsLawful d) where
    pub create_user-IsAtomic : IsAtomic (user_client d).create_user
    create_user-IsAtomic =
        dial-IsAtomic d.lost _
          (λ q w.
            unfold UserServer.create_user in
            writes-ne-panics _ _ ((users_table d).create (UserServer.new_user q)) w)
          (λ q w w' e h.
            (create_user_atomic law.status (users_table d) d.rfc3339 (users_law law) q w w' e h).0)

    pub create_menu_item-IsAtomic : IsAtomic (menu_client d).create_menu_item
    create_menu_item-IsAtomic =
        dial-IsAtomic d.lost _
          (λ q w.
            unfold MenuServer.create_menu_item in
            writes-ne-panics _ _ ((menu_table d).create (MenuServer.new_menu_item q)) w)
          (λ q w w' e h.
            (create_menu_item_atomic law.status (menu_table d) d.rfc3339 (menu_law law) q w w' e
              h).0)

    pub create_order-IsAtomic : IsAtomic (order_client d).create_order
    create_order-IsAtomic = dial-IsAtomic d.lost _ (create_order-ne-panics d) (λ q w w' e h.
        (create_order_atomic d.status (order_server d) (orders_table d) d.rfc3339 (user_reads d)
          (menu_reads d) law.status (orders_law law) q w w' e h).0)

module _ {S Err : Type 0} (st : Status Err) where
  relay_atomic :
      {A : Type 0} (code : ℕ) (v : A → Json) (p : Result Err A × S) (s : S)
      → code < 400
      → ((e : Err) (s' : S) → p ≡ (err e, s') → s' ≡ s)
      → 400 ≤ status_of (relay st code v p).writer
      → (relay st code v p).state ≡ s
  relay_atomic code v (ok a, s') s small h big = absurd (omega arith)
  relay_atomic code v (err e, s') s small h big = h e s' refl

from_id_atomic :
    {S : Type 0} (o : Option ℕ) (message : String) (k : ℕ → S → Conn S Json) (s : S)
    → ((n : ℕ) → 400 ≤ status_of (k n s).writer → (k n s).state ≡ s)
    → 400 ≤ status_of (from_id o message k s).writer
    → (from_id o message k s).state ≡ s
from_id_atomic none message k s h big = refl
from_id_atomic (some n) message k s h big = h n big

from_body_atomic :
    {S B : Type 0} (b : Result String B) (k : B → S → Conn S Json) (s : S)
    → ((c : B) → 400 ≤ status_of (k c s).writer → (k c s).state ≡ s)
    → 400 ≤ status_of (from_body b k s).writer
    → (from_body b k s).state ≡ s
from_body_atomic (ok c) k s h big = h c big
from_body_atomic (err m) k s h big = refl

module _ {U M O Err : Type 0} (d : Deployment U M O Err) (law : IsLawful d) where
  promised_atomic :
      (e : Endpoint) (r : Request) (w : World U M O)
      → 400 ≤ status_of (promised d.status (gateway_clients d) e r w).writer
      → (promised d.status (gateway_clients d) e r w).state ≡ w
  promised_atomic Endpoint.create_user r w = from_body_atomic r.user_body _ w (λ b.
      relay_atomic d.status 201 _ _ w (omega arith)
        (λ e w' h. create_user-IsAtomic d law _ w w' e h))
  promised_atomic Endpoint.get_user r w = from_id_atomic (parse_uint32 r.id) _ _ w (λ n.
      relay_atomic d.status 200 _ _ w (omega arith)
        (λ e w' h. ReadsOnly-IsAtomic (user_client d).get_user (user_reads d) _ w w' e h))
  promised_atomic Endpoint.get_users r w =
      relay_atomic d.status 200 _ _ w (omega arith) (λ e w' h. get_users-IsAtomic d _ w w' e h)
  promised_atomic Endpoint.create_menu_item r w = from_body_atomic r.item_body _ w (λ b.
      relay_atomic d.status 201 _ _ w (omega arith)
        (λ e w' h. create_menu_item-IsAtomic d law _ w w' e h))
  promised_atomic Endpoint.get_menu_item r w = from_id_atomic (parse_uint32 r.id) _ _ w (λ n.
      relay_atomic d.status 200 _ _ w (omega arith)
        (λ e w' h. ReadsOnly-IsAtomic (menu_client d).get_menu_item (menu_reads d) _ w w' e h))
  promised_atomic Endpoint.get_menu r w =
      relay_atomic d.status 200 _ _ w (omega arith) (λ e w' h. get_menu-IsAtomic d _ w w' e h)
  promised_atomic Endpoint.create_order r w = from_body_atomic r.order_body _ w (λ b.
      relay_atomic d.status 201 _ _ w (omega arith)
        (λ e w' h. create_order-IsAtomic d law _ w w' e h))
  promised_atomic Endpoint.get_order r w = from_id_atomic (parse_uint32 r.id) _ _ w (λ n.
      relay_atomic d.status 200 _ _ w (omega arith) (λ e w' h. get_order-IsAtomic d _ w w' e h))
  promised_atomic Endpoint.get_orders r w =
      relay_atomic d.status 200 _ _ w (omega arith) (λ e w' h. get_orders-IsAtomic d _ w w' e h)

  -- In a deployment whose status package and tables meet Rpc.IsStatus and Gorm.IsTable and whose
  -- IDs have 32 bits, while every value can be marshalled, a request to the gateway whose reply
  -- has an error status has changed none of the three databases.
  pub handle_atomic :
      (marshals : Json → Bool) (all : (v : Json) → marshals v ≡ true) (e : Endpoint) (r : Request)
      (w : World U M O)
      → 400 ≤ status_of (run (handle d.status (gateway_clients d) marshals e r) w).writer
      → (run (handle d.status (gateway_clients d) marshals e r) w).state ≡ w
  handle_atomic marshals all e r w =
      rw (handle_relays d.status marshals all (gateway_clients d) e r w) (promised_atomic e r w)
