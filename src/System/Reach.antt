-- ===== src/System/Reach.antt =====
-- The cafe under any sequence of requests to the gateway.
use mathlib.Core.Path.{subst}
use ss2025_web.Base.{ℕ, ◌≡◌, refl, sym, Bool, true, [], ◌∷◌, ok}
use ss2025_web.Order.{Order}
use ss2025_web.Http.Handler.{run}
use ss2025_web.Gateway.{Json}
use ss2025_web.Gateway.Routes.{Endpoint, Request, handle}
use ss2025_web.System.Lens.{World}
use ss2025_web.System.{Deployment, gateway_clients}
use ss2025_web.System.Lawful.{IsLawful}
use ss2025_web.System.Effects.{handle-Effect}
use ss2025_web.System.Books.{Keeps, Keeps-refl, Effect-Keeps}

-- One request.
pub data Step {U M O Err : Type 0} (d : Deployment U M O Err) (marshals : Json → Bool)
    (w w' : World U M O) : Type 0 where
  request :
      (e : Endpoint) (r : Request)
      → w' ≡ (run (handle d.status (gateway_clients d) marshals e r) w).state
      → Step d marshals w w'

-- Any number of requests.
pub data Reach {U M O Err : Type 0} (d : Deployment U M O Err) (marshals : Json → Bool)
    (w : World U M O) : World U M O → Type 0 where
  here : Reach d marshals w w
  later : {v v' : World U M O} → Reach d marshals w v → Step d marshals v v' → Reach d marshals w v'

module _ {U M O Err : Type 0} (d : Deployment U M O Err) (law : IsLawful d) (marshals : Json → Bool)
    (all : (v : Json) → marshals v ≡ true) where
  Step-Keeps : {w w' : World U M O} → Step d marshals w w' → Keeps d w w'
  Step-Keeps {w} {w'} (request e r same) = subst (Keeps d w) (sym same) (
      Effect-Keeps d law w (run (handle d.status (gateway_clients d) marshals e r) w).state
        (handle-Effect d law marshals all e r w))

  -- What is found under an ID is found there after any sequence of requests, the same.
  pub Reach-Keeps : {w w' : World U M O} → Reach d marshals w w' → Keeps d w w'
  Reach-Keeps {w} here = Keeps-refl d w w refl
  Reach-Keeps {w} {w'} (later {v} r s) =
      let k = Reach-Keeps r in
      let l = Step-Keeps s in
      record {
        users = λ i u h. l.users i u (k.users i u h);
        menu = λ i m h. l.menu i m (k.menu i m h);
        orders = λ i o h. l.orders i o (k.orders i o h);
      }

  -- In a deployment whose status package and tables meet Rpc.IsStatus and Gorm.IsTable and whose IDs
  -- have 32 bits, while every value can be marshalled: an order that is found under an ID is found
  -- there, with the same user, status, items and prices, after any sequence of requests, also when the
  -- menu has grown since.
  pub order_kept :
      {w w' : World U M O} (steps : Reach d marshals w w') (j : ℕ) (o : Order)
      → d.orders.first ("OrderItems" ∷ []) j w.orders ≡ ok o
      → d.orders.first ("OrderItems" ∷ []) j w'.orders ≡ ok o
  order_kept steps j o = (Reach-Keeps steps).orders j o
