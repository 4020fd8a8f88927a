-- ===== src/System/Progress.antt =====
-- How far calls of CreateOrder get while others run.
use ss2025_web.Base.{
  ℕ, ◌+◌, ◌-◌, ◌≤◌, ◌≡◌, ◌≢◌, refl, sym, ap, inl, inr, Bool, [], ◌∷◌, length, arith, ◌==◌,
  if◌then◌else◌, Result-cases, Option-cases, Bool-cases,
}
use mathlib.Core.Path.{subst}
use ss2025_web.Rpc.{Outcome}
use ss2025_web.Order.Server.{pending_order}
use ss2025_web.Order.{CreateOrderResponse}
use ss2025_web.Order.Process.{Pc, asking_user, asking_item, finished, step}
use ss2025_web.Gateway.{Json}
use ss2025_web.System.Lens.{World}
use ss2025_web.System.{Deployment, user_client, menu_client, orders_table}
use ss2025_web.System.Calls.{next_of}
use ss2025_web.System.Concurrent.{Pool, update, Turn, begin, move, other, Run, start, next}

-- The steps that a call has left at most: one for the user, one for each item, one for the insert.
abbrev pub remaining : {Err : Type 0} → Pc Err → ℕ
remaining (asking_user req) = 2 + length req.items
remaining (asking_item req items rest) = 1 + length rest
remaining (finished o) = 0

pub finished_of_remaining :
    {Err : Type 0} (p : Pc Err)
    → remaining p ≤ 0
    → (o : Outcome Err CreateOrderResponse) × (p ≡ finished o)
finished_of_remaining (asking_user req) h = absurd (omega (arith, h))
finished_of_remaining (asking_item req items rest) h = absurd (omega (arith, h))
finished_of_remaining (finished o) h = (o, refl)

module _ {U M O Err : Type 0} (d : Deployment U M O Err) where
  -- A step takes one off.
  step-remaining : (p : Pc Err) (w : World U M O) → remaining (next_of d p w).0 ≤ remaining p - 1
  unfolding step
  step-remaining (asking_user req) w =
      elim (Result-cases ((user_client d).get_user (record { id = req.user_id }) w).0) [
        | inl (a, e) ↦ ground arith
        | inr (x, e) ↦ ground arith
      ]
  step-remaining (asking_item req items (r ∷ rest)) w =
      elim (Result-cases ((menu_client d).get_menu_item (record { id = r.menu_item_id }) w).0) [
        | inl (a, e) ↦ elim (Option-cases a.menu_item) [
          | inl n ↦ ground arith
          | inr (m, k) ↦ ground arith
        ]
        | inr (x, e) ↦ ground arith
      ]
  step-remaining (asking_item req items []) w =
      elim (Result-cases ((orders_table d).create (pending_order req.user_id items) w).0) [
        | inl (o, e) ↦ ground arith
        | inr (x, e) ↦ ground arith
      ]
  step-remaining (finished o) w = omega arith

  module _ (marshals : Json → Bool) where
    -- How often a call moves.
    abbrev pub turn_moves : ℕ → {p q : Pool U M O Err} → Turn d marshals p q → ℕ
    turn_moves i (begin j req o over same) = 0
    turn_moves i (move j same) = if i == j then 1 else 0
    turn_moves i (other e r same) = 0

    abbrev pub moves : ℕ → {p q : Pool U M O Err} → Run d marshals p q → ℕ
    moves i start = 0
    moves i (next r t) = moves i r + turn_moves i t

    -- No call begins under the number.
    abbrev pub IsBusyTurn : ℕ → {p q : Pool U M O Err} → Turn d marshals p q → Type 0
    IsBusyTurn i (begin j req o over same) = i ≢ j
    IsBusyTurn i (move j same) = Unit
    IsBusyTurn i (other e r same) = Unit

    abbrev pub IsBusy : ℕ → {p q : Pool U M O Err} → Run d marshals p q → Type 0
    IsBusy i start = Unit
    IsBusy i (next r t) = IsBusy i r × IsBusyTurn i t

    Turn-remaining :
        (i : ℕ) {p q : Pool U M O Err} (t : Turn d marshals p q)
        → IsBusyTurn i t
        → remaining (q.pc i) ≤ remaining (p.pc i) - turn_moves i t
    Turn-remaining i {p} {q} (begin j req o over same) ne =
        let at : q.pc i ≡ update p.pc j (asking_user req) i = ap (λ v. v.pc i) same in
        elim (Bool-cases (i == j)) [
          | inl y ↦ absurd (ne (ground arith))
          | inr n ↦ rw (at, n) (omega arith)
        ]
    Turn-remaining i {p} {q} (move j same) h =
        let at : q.pc i ≡ update p.pc j (next_of d (p.pc j) p.world).0 i = ap (λ v. v.pc i) same in
        elim (Bool-cases (i == j)) [
          | inl y ↦
              let own : i ≡ j = ground arith in
              rw (at, y)
                (subst (λ k. remaining (next_of d (p.pc j) p.world).0 ≤ remaining (p.pc k) - 1)
                  (sym own) (step-remaining (p.pc j) p.world))
          | inr n ↦ rw (at, n) (omega arith)
        ]
    Turn-remaining i {p} {q} (other e r same) h =
        let at : q.pc i ≡ p.pc i = ap (λ v. v.pc i) same in rw at (omega arith)

    Run-remaining :
        (i : ℕ) {p q : Pool U M O Err} (r : Run d marshals p q)
        → IsBusy i r
        → remaining (q.pc i) ≤ remaining (p.pc i) - moves i r
    Run-remaining i start h = omega arith
    Run-remaining i (next r t) (h, k) = omega (arith, Run-remaining i r h, Turn-remaining i t k)

    -- However the calls of CreateOrder and other requests interleave, and whatever the databases
    -- answer: a call under whose number no other call begins is over once it has moved as often as it
    -- had steps left at the start of the run, one for the user if that is still to be asked for, one
    -- for each item left, and one for the insert.
    pub moves-finished :
        (i : ℕ) {p q : Pool U M O Err} (r : Run d marshals p q)
        → IsBusy i r
        → remaining (p.pc i) ≤ moves i r
        → (o : Outcome Err CreateOrderResponse) × (q.pc i ≡ finished o)
    moves-finished i {p} {q} r h k =
        finished_of_remaining (q.pc i) (omega (arith, Run-remaining i r h, k))
