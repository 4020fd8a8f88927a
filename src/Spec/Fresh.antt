-- ===== src/Spec/Fresh.antt =====
-- No ID is given twice.
use ss2025_web.Base.{
  ℕ, ◌≡◌, ◌≢◌, sym, ap, ◌∙◌, inl, inr, Option, none, some, List, [], ◌∷◌, All, arith,
}
use ss2025_web.Spec.{
  Shelf, Account, Dish, Tab, Shop, Call, malformed, list_users, list_dishes, list_orders, add_user,
  show_user, add_dish, show_dish, place, show_order, Shown, nothing, accounts, dishes, tabs,
  account, dish, tab, Seen, Adds, added, failed, Looks, there, missing, Lists, all, unavailable,
  taken, turned_away, Serves, Session, closed, called,
}
use ss2025_web.Spec.Kept.{Kept, Serves-Kept, stock_at}

-- What a reply shows one value of.
pub data Identity : Type 0 where
  of_user of_dish of_order : ℕ → Identity

abbrev pub identity : Shown → Option Identity
identity (account i a) = some (of_user i)
identity (dish i d) = some (of_dish i)
identity (tab i t) = some (of_order i)
identity nothing = none
identity (accounts rows) = none
identity (dishes rows) = none
identity (tabs rows) = none

-- A reply that says that something was made.
abbrev pub IsMade : Identity → Seen → Type 0
IsMade k s = (s.status ≡ 201) × (identity s.shown ≡ some k)

abbrev Stands : Identity → Shop → Type 0
Stands (of_user i) σ = (a : Account) × (σ.users i ≡ some a)
Stands (of_dish i) σ = (d : Dish) × (σ.menu i ≡ some d)
Stands (of_order i) σ = (t : Tab) × (σ.orders i ≡ some t)

Stands-Kept : (k : Identity) (σ σ' : Shop) → Kept σ σ' → Stands k σ → Stands k σ'
Stands-Kept (of_user i) σ σ' kept (a, h) = (a, kept.users i a h)
Stands-Kept (of_dish i) σ σ' kept (d, h) = (d, kept.menu i d h)
Stands-Kept (of_order i) σ σ' kept (t, h) = (t, kept.orders i t h)

-- What a call makes was not there, and is there after it.
abbrev Makes : Identity → Shop → Shop → Type 0
Makes k σ σ' = (¬ Stands k σ) × Stands k σ'

Looks-IsMade :
    {V : Type 0} (show : ℕ → V → Shown) (i : ℕ) (f : Shelf V) (s : Seen)
    → Looks show i f s
    → s.status ≢ 201
Looks-IsMade show i f s (there v e shown) h = ground arith
Looks-IsMade show i f s (missing e (inl shown)) h = ground arith
Looks-IsMade show i f s (missing e (inr shown)) h = ground arith

Lists-IsMade :
    {V : Type 0} (show : List (ℕ × V) → Shown) (f : Shelf V) (s : Seen)
    → Lists show f s
    → s.status ≢ 201
Lists-IsMade show f s (all rows listed shown) h = ground arith
Lists-IsMade show f s (unavailable shown) h = ground arith

Adds-IsMade :
    {V : Type 0} (show : ℕ → V → Shown) (v : V) (f g : Shelf V) (s : Seen)
    → Adds show v f s g
    → s.status ≡ 201
    → (i : ℕ) × (f i ≡ none) × (g i ≡ some v) × (s.shown ≡ show i v)
Adds-IsMade show v f g s (added i free shown e) h =
    (i, free, ap (λ k. k i) e ∙ stock_at i v f, ap (λ x. x.shown) shown)
Adds-IsMade show v f g s (failed shown e) h = absurd (ground arith)

some-injective : {j k : Identity} → some j ≡ some k → j ≡ k
some-injective h = ground arith

not_there : {V : Type 0} (f : Shelf V) (i : ℕ) → f i ≡ none → ¬ ((v : V) × (f i ≡ some v))
not_there f i free (v, e) = ground arith

Serves-Makes :
    (c : Call) (σ σ' : Shop) (s : Seen) (k : Identity) → Serves c σ s σ' → IsMade k s → Makes k σ σ'
Serves-Makes malformed σ σ' s k (h, e) (made, is) = absurd (ground arith)
Serves-Makes list_users σ σ' s k (h, e) (made, is) = absurd (Lists-IsMade accounts σ.users s h made)
Serves-Makes list_dishes σ σ' s k (h, e) (made, is) = absurd (Lists-IsMade dishes σ.menu s h made)
Serves-Makes list_orders σ σ' s k (h, e) (made, is) = absurd (Lists-IsMade tabs σ.orders s h made)
Serves-Makes (show_user i) σ σ' s k (h, e) (made, is) =
    absurd (Looks-IsMade account i σ.users s h made)
Serves-Makes (show_dish i) σ σ' s k (h, e) (made, is) = absurd (Looks-IsMade dish i σ.menu s h made)
Serves-Makes (show_order i) σ σ' s k (h, e) (made, is) =
    absurd (Looks-IsMade tab i σ.orders s h made)
Serves-Makes (add_user a) σ σ' s k (h, m, o) (made, is) =
    let (i, free, put, shown) = Adds-IsMade account a σ.users σ'.users s h made in
    let at : k ≡ of_user i = some-injective (sym is ∙ ap identity shown) in
    rw at (not_there σ.users i free, (a, put))
Serves-Makes (add_dish d) σ σ' s k (h, u, o) (made, is) =
    let (i, free, put, shown) = Adds-IsMade dish d σ.menu σ'.menu s h made in
    let at : k ≡ of_dish i = some-injective (sym is ∙ ap identity shown) in
    rw at (not_there σ.menu i free, (d, put))
Serves-Makes (place who ws) σ σ' s k (taken a lines known able h, u, m) (made, is) =
    let t : Tab = (who, "pending", lines) in
    let (i, free, put, shown) = Adds-IsMade tab t σ.orders σ'.orders s h made in
    let at : k ≡ of_order i = some-injective (sym is ∙ ap identity shown) in
    rw at (not_there σ.orders i free, (t, put))
Serves-Makes (place who ws) σ σ' s k (turned_away why shown e, u, m) (made, is) =
    absurd (ground arith)

-- What stands already is made by no reply.
Session-IsMade :
    {σ σ' : Shop} {h : List (Call × Seen)} (k : Identity)
    → Session σ h σ'
    → Stands k σ
    → All (λ e. ¬ IsMade k e.1) h
Session-IsMade k closed stands = tt
Session-IsMade k (called {σ} {σ₁} c s served rest) stands = (
  λ made. (Serves-Makes c σ σ₁ s k served made).0 stands,
  Session-IsMade k rest (Stands-Kept k σ σ₁ (Serves-Kept c σ σ₁ s served) stands),
)

-- No two replies say that the same was made.
abbrev pub IsDistinct : List (Call × Seen) → Type 0
IsDistinct [] = Unit
IsDistinct ((c, s) ∷ h) = ((k : Identity) → IsMade k s → All (λ e. ¬ IsMade k e.1) h) × IsDistinct h

pub Session-IsDistinct : {σ σ' : Shop} {h : List (Call × Seen)} → Session σ h σ' → IsDistinct h
Session-IsDistinct closed = tt
Session-IsDistinct (called {σ} {σ₁} c s served rest) = (
  λ k made. Session-IsMade k rest (Serves-Makes c σ σ₁ s k served made).1,
  Session-IsDistinct rest,
)
