-- ===== src/Discovery/Ledger.antt =====
-- The map of orders of the practical4 order service.
use ss2025_web.Http.Reply.{error_reply}
use ss2025_web.Base.{
  ◌⊎◌, ◌≤◌, Bool, ◌≡◌, refl, sym, inl, inr, Option, some, none, Result, ok, err, arith,
  Result-cases, Bool-cases,
}
use Prim.Native.String.{String}
use text.Mathlib.Text.{◌==◌}
use text.Mathlib.TextEquality.{eq_iff}
use ss2025_web.Http.{status_of}
use ss2025_web.Http.Handler.{run, Conn}
use ss2025_web.Discovery.{Consul}
use ss2025_web.Discovery.Cafe.{Order, Orders, Cafe, put, post_order, find_service}

-- What may stand under an ID: nothing, or an order of that ID with the status "received".
abbrev pub Filed : String → Option Order → Type 0
Filed k none = Unit
Filed k (some o) = (o.id ≡ k) × (o.status ≡ "received")

abbrev pub IsLedger : Orders → Type 0
IsLedger orders = (k : String) → Filed k (orders k)

-- The order that the service makes of a body.
abbrev pub received : String → Order → Order
received i o = record o { id = i; status = "received" }

put-IsLedger :
    (orders : Orders) (i : String) (o : Order)
    → IsLedger orders
    → IsLedger (put i (received i o) orders)
put-IsLedger orders i o h k = elim (Bool-cases (k == i)) [
  | inl y ↦ rw (y, put) (sym ((eq_iff k i).0 y), refl)
  | inr n ↦ rw (n, put) (h k)
]

module _ {S : Type 0} (consul : Consul S) (generate_uuid : S → String × S)
    (marshals : Order → Bool) where
  abbrev posted : Result String Order → Cafe S → Conn (Cafe S) Order
  posted body c = run (post_order consul generate_uuid marshals body) c

  posted-received :
      (o : Order) (c : Cafe S) (address : String)
      → find_service consul "food-catalog-service" c.outside ≡ ok address
      → (posted (ok o) c).state ≡ record {
        orders = put (generate_uuid c.outside).0 (received (generate_uuid c.outside).0 o) c.orders;
        outside = (generate_uuid c.outside).1;
      }
  unfolding post_order
  posted-received o c address e =
      elim (Bool-cases (marshals (received (generate_uuid c.outside).0 o))) [
        | inl y ↦ ground arith
        | inr n ↦ ground arith
      ]

  posted-status :
      (o : Order) (c : Cafe S) (address : String)
      → find_service consul "food-catalog-service" c.outside ≡ ok address
      → status_of (posted (ok o) c).writer ≡ 201
  unfolding post_order
  posted-status o c address e =
      elim (Bool-cases (marshals (received (generate_uuid c.outside).0 o))) [
        | inl y ↦ ground arith
        | inr n ↦ ground arith
      ]

  posted-unavailable :
      (o : Order) (c : Cafe S) (m : String)
      → find_service consul "food-catalog-service" c.outside ≡ err m
      → posted (ok o) c
        ≡ record { state = c; writer = error_reply "Food catalog service not available" 500 }
  unfolding post_order
  posted-unavailable o c m e = ground arith

  -- Where every order stands under its own ID in the status "received", a POST of an order keeps
  -- it so, whatever ID and status the body names.
  pub post_order-IsLedger :
      (body : Result String Order) (c : Cafe S)
      → IsLedger c.orders
      → IsLedger (run (post_order consul generate_uuid marshals body) c).state.orders
  post_order-IsLedger (err m) c h = unfold post_order in h
  post_order-IsLedger (ok o) c h =
      elim (Result-cases (find_service consul "food-catalog-service" c.outside)) [
        | inl (a, e) ↦
            rw (posted-received o c a e) (put-IsLedger c.orders (generate_uuid c.outside).0 o h)
        | inr (m, e) ↦ rw (posted-unavailable o c m e) h
      ]

  -- A POST of an order has either stored the body's order under the new UUID, as "received", and
  -- is answered with 201, or changed nothing and is answered with an error status.
  pub post_order_stored :
      (body : Result String Order) (c : Cafe S)
      → ((o : Order) × (body ≡ ok o)
          × (status_of (run (post_order consul generate_uuid marshals body) c).writer ≡ 201)
          × ((run (post_order consul generate_uuid marshals body) c).state ≡ record {
            orders =
                put (generate_uuid c.outside).0 (received (generate_uuid c.outside).0 o) c.orders;
            outside = (generate_uuid c.outside).1;
          }))
        ⊎ ((400 ≤ status_of (run (post_order consul generate_uuid marshals body) c).writer)
            × ((run (post_order consul generate_uuid marshals body) c).state ≡ c))
  post_order_stored (err m) c = inr (unfold post_order in omega arith, unfold post_order in refl)
  post_order_stored (ok o) c =
      elim (Result-cases (find_service consul "food-catalog-service" c.outside)) [
        | inl (a, e) ↦ inl (o, refl, posted-status o c a e, posted-received o c a e)
        | inr (m, e) ↦
            inr
              (rw (posted-unavailable o c m e) (omega arith), rw (posted-unavailable o c m e) refl)
      ]
