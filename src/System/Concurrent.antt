-- ===== src/System/Concurrent.antt =====
-- Calls of CreateOrder that run at the same time as each other and as any other requests, a remote
-- call at a time.
use ss2025_web.Rpc.{Outcome}
use ss2025_web.Base.{ℕ, ◌≡◌, refl, sym, inl, inr, Bool, true, Bool-cases, ◌==◌, if◌then◌else◌}
use ss2025_web.Order.{CreateOrderResponse, CreateOrderRequest}
use mathlib.Core.Path.{subst}
use ss2025_web.Order.Process.{Pc, asking_user, finished, step}
use ss2025_web.Http.Handler.{run}
use ss2025_web.Gateway.{Json}
use ss2025_web.Gateway.Routes.{Endpoint, Request, handle}
use ss2025_web.System.Lens.{World}
use ss2025_web.System.{Deployment, order_server, orders_table, gateway_clients}
use ss2025_web.System.Lawful.{IsLawful}
use ss2025_web.System.Effects.{handle-Effect}
use ss2025_web.System.Books.{IsSound, Keeps, Keeps-refl, Effect-IsSound, Effect-Keeps}
use ss2025_web.System.Calls.{Ready, Ready-Keeps, next_of, next-Stepped}

-- The databases, and where each call of CreateOrder stands, by its number.
pub record Pool (U M O Err : Type 0) : Type 0 where
  pub world : World U M O
  pub pc : ℕ → Pc Err

abbrev pub update : {A : Type 0} → (ℕ → A) → ℕ → A → ℕ → A
update f i x j = if j == i then x else f j

-- A call begins, in place of one that is over or was never there; a call takes a step; or another
-- request runs as a whole.
pub data Turn {U M O Err : Type 0} (d : Deployment U M O Err) (marshals : Json → Bool)
    (p q : Pool U M O Err) : Type 0 where
  begin :
      (i : ℕ) (req : CreateOrderRequest) (o : Outcome Err CreateOrderResponse)
      → p.pc i ≡ finished o
      → q ≡ record p { pc = update p.pc i (asking_user req) }
      → Turn d marshals p q
  move :
      (i : ℕ)
      → q ≡ record {
        world = (step d.status (order_server d) (orders_table d) d.rfc3339 (p.pc i) p.world).1;
        pc =
            update p.pc i
              (step d.status (order_server d) (orders_table d) d.rfc3339 (p.pc i) p.world).0;
      }
      → Turn d marshals p q
  other :
      (e : Endpoint) (r : Request)
      → q ≡ record p {
        world = (run (handle d.status (gateway_clients d) marshals e r) p.world).state;
      }
      → Turn d marshals p q

-- Any interleaving.
pub data Run {U M O Err : Type 0} (d : Deployment U M O Err) (marshals : Json → Bool)
    (p : Pool U M O Err) : Pool U M O Err → Type 0 where
  start : Run d marshals p p
  next : {v v' : Pool U M O Err} → Run d marshals p v → Turn d marshals v v' → Run d marshals p v'

module _ {U M O Err : Type 0} (d : Deployment U M O Err) where
  pub record IsSafe (p : Pool U M O Err) : Type 0 where
    pub sound : IsSound d p.world
    pub ready : (i : ℕ) → Ready d p.world (p.pc i)

  module _ (law : IsLawful d) where
    -- One call goes on, the others stay where they are.
    update-Ready :
        (w w' : World U M O) (pc : ℕ → Pc Err) (i : ℕ) (p : Pc Err)
        → Keeps d w w'
        → ((j : ℕ) → Ready d w (pc j))
        → Ready d w' p
        → (j : ℕ) → Ready d w' (update pc i p j)
    update-Ready w w' pc i p keeps others own j = elim (Bool-cases (j == i)) [
      | inl y ↦ rw y own
      | inr n ↦ rw n (Ready-Keeps d keeps (pc j) (others j))
    ]

    Turn-IsSafe :
        (marshals : Json → Bool) (all : (v : Json) → marshals v ≡ true) (p q : Pool U M O Err)
        → Turn d marshals p q
        → IsSafe p
        → IsSafe q
    Turn-IsSafe marshals all p q (begin i req o over e) safe = subst IsSafe (sym e) (record {
      sound = safe.sound;
      ready =
          update-Ready p.world p.world p.pc i (asking_user req) (Keeps-refl d p.world p.world refl)
            safe.ready tt;
    })
    Turn-IsSafe marshals all p q (move i e) safe =
        let stepped = next-Stepped d law (p.pc i) p.world safe.sound (safe.ready i) in
        subst IsSafe (sym e) (record {
          sound = stepped.sound;
          ready =
              update-Ready p.world (next_of d (p.pc i) p.world).1 p.pc i
                (next_of d (p.pc i) p.world).0 stepped.keeps safe.ready stepped.ready;
        })
    Turn-IsSafe marshals all p q (other e r same) safe =
        let w' = (run (handle d.status (gateway_clients d) marshals e r) p.world).state in
        let effect = handle-Effect d law marshals all e r p.world in
        subst IsSafe (sym same) (record {
          sound = Effect-IsSound d law p.world w' effect safe.sound;
          ready = λ j. Ready-Keeps d (Effect-Keeps d law p.world w' effect) (p.pc j) (safe.ready j);
        })

    -- In a deployment whose status package and tables meet Rpc.IsStatus and Gorm.IsTable and whose IDs
    -- have 32 bits, while every value can be marshalled: however the remote calls and inserts of any
    -- number of calls of CreateOrder interleave with each other and with whole requests, these stay
    -- true together. Every stored order is pending, of a user in the user database, with lines of
    -- items in the menu database at the prices that stand there; each call between its user and its
    -- insert finds its user there and the items priced so far at those prices; and each call that has
    -- returned finds the order of its response stored under that order's ID, with its columns.
    pub Run-IsSafe :
        (marshals : Json → Bool) (all : (v : Json) → marshals v ≡ true) (p q : Pool U M O Err)
        → Run d marshals p q
        → IsSafe p
        → IsSafe q
    Run-IsSafe marshals all p q start safe = safe
    Run-IsSafe marshals all p q (next {v} r t) safe =
        Turn-IsSafe marshals all v q t (Run-IsSafe marshals all p v r safe)
