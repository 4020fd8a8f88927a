-- ===== src/Spec/Prices.antt =====
-- The lines of an order at the prices of a menu that grows.
use mathlib.Core.Path.{subst}
use ss2025_web.Base.{
  sym, ap, ◌∙◌, Has, here, later, ◌≡◌, inl, inr, none, some, List, [], ◌∷◌, ◌++◌, arith,
  Option-cases,
}
use ss2025_web.Base.Word.{Float64}
use ss2025_web.Spec.{Shelf, Dish, Wish, Line, priced}
use ss2025_web.Spec.Kept.{Within}

-- The line of a wish at a price.
abbrev pub line_at : Wish → Float64 → Line
line_at (i, q) price = (i, q, price)

module _ (menu : Shelf Dish) where
  pub priced_cons :
      (w : Wish) (ws : List Wish) (lines : List Line)
      → priced menu (w ∷ ws) ≡ some lines
      → (dish : Dish) × (rest : List Line) × (menu w.0 ≡ some dish)
        × (priced menu ws ≡ some rest)
        × (lines ≡ line_at w dish.2 ∷ rest)
  unfolding priced
  priced_cons w ws lines h = elim (Option-cases (menu w.0)) [
    | inl n ↦ absurd (ground arith)
    | inr (dish, e) ↦ elim (Option-cases (priced menu ws)) [
      | inl n ↦ absurd (ground arith)
      | inr (rest, k) ↦ (dish, rest, e, k, ground arith)
    ]
  ]

  pub priced-append :
      (ws : List Wish) (w : Wish) (lines : List Line) (dish : Dish)
      → priced menu ws ≡ some lines
      → menu w.0 ≡ some dish
      → priced menu (ws ++ w ∷ []) ≡ some (lines ++ line_at w dish.2 ∷ [])
  unfolding priced
  priced-append [] w lines dish h e = ground arith
  priced-append (v ∷ ws) w lines dish h e =
      let (d, rest, at, k, is) = priced_cons v ws lines h in
      let more = priced-append ws w rest dish k e in ground arith

  pub priced-missing :
      (ws : List Wish) (w : Wish) (rest : List Wish)
      → menu w.0 ≡ none
      → priced menu (ws ++ w ∷ rest) ≡ none
  unfolding priced
  priced-missing [] w rest e = ground arith
  priced-missing (v ∷ ws) w rest e =
      let more = priced-missing ws w rest e in
      elim (Option-cases (menu v.0)) [ inl n ↦ ground arith | inr (dish, k) ↦ ground arith ]

-- The prices of what is on the menu stay.
pub priced-Within :
    (menu menu' : Shelf Dish) (ws : List Wish) (lines : List Line)
    → Within menu menu'
    → priced menu ws ≡ some lines
    → priced menu' ws ≡ some lines
unfolding priced
priced-Within menu menu' [] lines k h = h
priced-Within menu menu' (w ∷ ws) lines k h =
    let (d, rest, at, e, is) = priced_cons menu w ws lines h in
    let more = priced-Within menu menu' ws rest k e in let there = k w.0 d at in ground arith

-- Each thing that is wanted has its line.
pub priced-Has :
    (menu : Shelf Dish) (ws : List Wish) (lines : List Line) (w : Wish)
    → priced menu ws ≡ some lines
    → Has w ws
    → (dish : Dish) × (menu w.0 ≡ some dish) × Has (line_at w dish.2) lines
priced-Has menu (v ∷ ws) lines w h (here e) =
    let (dish, rest, there, able, is) = priced_cons menu v ws lines h in
    (
      dish,
      ap (λ x. menu x.0) e ∙ there,
      subst (Has (line_at w dish.2)) (sym is) (here (ap (λ x. line_at x dish.2) e)),
    )
priced-Has menu (v ∷ ws) lines w h (later k) =
    let (dish, rest, there, able, is) = priced_cons menu v ws lines h in
    let (found, at, listed) = priced-Has menu ws rest w able k in
    (found, at, subst (Has (line_at w found.2)) (sym is) (later listed))
priced-Has menu [] lines w h k = elim k [ ]
