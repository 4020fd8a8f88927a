-- ===== src/System/Linear.antt =====
-- Calls of CreateOrder that run at the same time, beside a session of the abstract cafe.
use mathlib.Core.Path.{subst}
use ss2025_web.Base.{ℕ, ◌≡◌, sym, inl, inr, Bool, true, List, [], ◌∷◌, ◌++◌, ◌==◌, Bool-cases}
use ss2025_web.Order.RoundTrip.{InRange}
use ss2025_web.Order.Process.{Pc, asking_user}
use ss2025_web.Http.Handler.{run}
use ss2025_web.Gateway.{Json}
use ss2025_web.Gateway.Routes.{handle}
use ss2025_web.Gateway.Seen.{seen, call_of, IsTyped}
use ss2025_web.Spec.{Shop, Call, Seen, Session, closed, called}
use ss2025_web.Spec.Fresh.{IsDistinct, Session-IsDistinct}
use ss2025_web.Spec.Kept.{Kept, Session-Kept}
use ss2025_web.System.{Deployment, gateway_clients}
use ss2025_web.System.Lawful.{IsLawful}
use ss2025_web.System.Shelves.{shop_of}
use ss2025_web.System.Calls.{next_of}
use ss2025_web.System.Concurrent.{Pool, update, Turn, begin, move, other, Run, start, next}
use ss2025_web.System.InFlight.{InFlight, InFlight-Kept, noted}
use ss2025_web.System.InFlight.Steps.{next-IsStep}
use ss2025_web.System.Refines.{handle_refines}

pub Session-append :
    {σ₁ σ₂ σ₃ : Shop} {h k : List (Call × Seen)}
    → Session σ₁ h σ₂
    → Session σ₂ k σ₃
    → Session σ₁ (h ++ k) σ₃
Session-append closed s = s
Session-append (called c s served rest) k = called c s served (Session-append rest k)

module _ {U M O Err : Type 0} (d : Deployment U M O Err) (marshals : Json → Bool) where
  -- The replies of a turn: of a call that ends with it, or of the other request.
  abbrev pub turn_history : {p q : Pool U M O Err} → Turn d marshals p q → List (Call × Seen)
  turn_history (begin i req o over same) = []
  turn_history {p} (move i same) = noted d (p.pc i) (next_of d (p.pc i) p.world).0
  turn_history {p} (other e r same) =
      (call_of e r, seen (run (handle d.status (gateway_clients d) marshals e r) p.world).writer)
      ∷ []

  -- The calls with their replies, in the order in which they end.
  abbrev pub run_history : {p q : Pool U M O Err} → Run d marshals p q → List (Call × Seen)
  run_history start = []
  run_history (next r t) = run_history r ++ turn_history t

  -- Requests have numbers of the types of their messages.
  abbrev pub IsTypedTurn : {p q : Pool U M O Err} → Turn d marshals p q → Type 0
  IsTypedTurn (begin i req o over same) = InRange req
  IsTypedTurn (move i same) = Unit
  IsTypedTurn (other e r same) = IsTyped e r

  abbrev pub IsTypedRun : {p q : Pool U M O Err} → Run d marshals p q → Type 0
  IsTypedRun start = Unit
  IsTypedRun (next r t) = IsTypedRun r × IsTypedTurn t

  abbrev pub AllInFlight : Pool U M O Err → Type 0
  AllInFlight p = (i : ℕ) → InFlight (shop_of d p.world) (p.pc i)

  update-InFlight :
      (σ σ' : Shop) (pc : ℕ → Pc Err) (i : ℕ) (p : Pc Err)
      → Kept σ σ'
      → ((j : ℕ) → InFlight σ (pc j))
      → InFlight σ' p
      → (j : ℕ) → InFlight σ' (update pc i p j)
  update-InFlight σ σ' pc i p kept others own j = elim (Bool-cases (j == i)) [
    | inl y ↦ rw y own
    | inr n ↦ rw n (InFlight-Kept kept (pc j) (others j))
  ]

  module _ (law : IsLawful d) (all : (v : Json) → marshals v ≡ true) where
    abbrev IsTurned : Pool U M O Err → List (Call × Seen) → Pool U M O Err → Type 0
    IsTurned p h q = Session (shop_of d p.world) h (shop_of d q.world) × AllInFlight q

    Turn-Session :
        {p q : Pool U M O Err} (t : Turn d marshals p q)
        → IsTypedTurn t
        → AllInFlight p
        → IsTurned p (turn_history t) q
    Turn-Session {p} (begin i req o over same) typed flying = subst (IsTurned p []) (sym same) (
      closed,
      update-InFlight (shop_of d p.world) (shop_of d p.world) p.pc i (asking_user req)
          (Session-Kept closed) flying typed,
    )
    Turn-Session {p} (move i same) typed flying =
        let (session, own) = next-IsStep d law (p.pc i) p.world (flying i) in
        subst (IsTurned p _) (sym same) (
          session,
          update-InFlight (shop_of d p.world) (shop_of d (next_of d (p.pc i) p.world).1) p.pc i
              (next_of d (p.pc i) p.world).0 (Session-Kept session) flying own,
        )
    Turn-Session {p} (other e r same) typed flying =
        let served = handle_refines d law marshals all e r p.world typed in
        let session = called (call_of e r) _ served closed in
        subst (IsTurned p _) (sym same)
          (session, λ j. InFlight-Kept (Session-Kept session) (p.pc j) (flying j))

    -- In a deployment whose status package and tables meet Rpc.IsStatus and Gorm.IsTable and whose IDs
    -- have 32 bits, while every value can be marshalled: however the remote calls and inserts of any
    -- number of calls of CreateOrder interleave with each other and with whole requests, their numbers
    -- being of the types of their messages, the calls in the order in which they end, with the replies
    -- that the gateway makes of their results, are a session of the abstract cafe, where each call runs
    -- as a whole, from the databases before the run to those after it. This holds from any pool where
    -- each call between its user and its insert has found its user and the items priced so far, and
    -- ends in such a pool.
    pub Run-Session :
        {p q : Pool U M O Err} (r : Run d marshals p q)
        → IsTypedRun r
        → AllInFlight p
        → Session (shop_of d p.world) (run_history r) (shop_of d q.world) × AllInFlight q
    Run-Session start typed flying = (closed, flying)
    Run-Session (next r t) (before, typed) flying =
        let (session, between) = Run-Session r before flying in
        let (last, after) = Turn-Session t typed between in (Session-append session last, after)

    -- In a deployment whose status package and tables meet Rpc.IsStatus and Gorm.IsTable and whose IDs
    -- have 32 bits, while every value can be marshalled: however the remote calls and inserts of any
    -- number of calls of CreateOrder interleave with each other and with whole requests, their numbers
    -- being of the types of their messages, no two replies with 201 show a user, a menu item or an
    -- order under the same ID. The run begins in a pool where each call between its user and its
    -- insert has found its user and the items priced so far.
    pub Run-IsDistinct :
        {p q : Pool U M O Err} (r : Run d marshals p q)
        → IsTypedRun r
        → AllInFlight p
        → IsDistinct (run_history r)
    Run-IsDistinct r typed flying = Session-IsDistinct (Run-Session r typed flying).0
