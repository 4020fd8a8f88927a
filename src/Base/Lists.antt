-- ===== src/Base/Lists.antt =====
-- Lists measured by native numbers, and a predicate on every member, and membership.
use Prim.Native.Nat.{ℕ, suc, ◌+◌}
use mathlib.Core.Path.{◌≡◌, refl, ap}
use mathlib.Core.List.{List, [], ◌∷◌, ◌++◌, map}
use native.Mathlib.Omega.{arith}

module _ {ℓ} {A : Type ℓ} where
  abbrev pub length : List A → ℕ
  length [] = 0
  length (x ∷ xs) = suc (length xs)

  pub length-append : (xs ys : List A) → length (xs ++ ys) ≡ length xs + length ys
  length-append [] ys = omega arith
  length-append (x ∷ xs) ys = omega (arith, length-append xs ys)

  abbrev pub All {κ} : (A → Type κ) → List A → Type κ
  All P [] = Unit
  All P (x ∷ xs) = P x × All P xs

-- x stands in the list.
pub data Has {ℓ} {A : Type ℓ} (x : A) : List A → Type ℓ where
  here : {y : A} {ys : List A} → x ≡ y → Has x (y ∷ ys)
  later : {y : A} {ys : List A} → Has x ys → Has x (y ∷ ys)

module _ {ℓ κ} {A : Type ℓ} {B : Type κ} where
  pub Has-map : (f : A → B) {x : A} {xs : List A} → Has x xs → Has (f x) (map f xs)
  Has-map f (here e) = here (ap f e)
  Has-map f (later h) = later (Has-map f h)

  pub length-map : (f : A → B) (xs : List A) → length (map f xs) ≡ length xs
  length-map f [] = refl
  length-map f (x ∷ xs) = ap suc (length-map f xs)

  pub map_eq_of_All : (f g : A → B) (xs : List A) → All (λ x. f x ≡ g x) xs → map f xs ≡ map g xs
  map_eq_of_All f g [] h = refl
  map_eq_of_All f g (x ∷ xs) (e, h) = λ i. e i ∷ map_eq_of_All f g xs h i
