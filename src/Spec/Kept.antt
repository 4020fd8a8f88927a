-- ===== src/Spec/Kept.antt =====
-- What the abstract cafe never takes back.
use ss2025_web.Base.{
  Has, ◌⊎◌, ℕ, ◌<◌, ◌^◌, ◌≡◌, refl, sym, ap, ◌∙◌, inl, inr, none, some, List, arith, ◌==◌,
  Bool-cases,
}
use ss2025_web.Spec.{
  Lists, all, unavailable, Shelf, stock, Tab, Wish, Line, Shop, Call, malformed, list_users,
  list_dishes, list_orders, add_user, show_user, add_dish, show_dish, place, show_order, Shown,
  account, dish, tab, Seen, shows, refused, Adds, added, failed, Looks, there, missing, Places,
  taken, turned_away, priced, Serves, Session, closed, called,
}

-- Every value stays under its ID.
abbrev pub Within : {V : Type 0} → Shelf V → Shelf V → Type 0
Within {V} f g = (i : ℕ) (v : V) → f i ≡ some v → g i ≡ some v

module _ {V : Type 0} where
  Within_of : (f g : Shelf V) → g ≡ f → Within f g
  Within_of f g e i v h = ap (λ k. k i) e ∙ h

  Within-stock : (i : ℕ) (v : V) (f : Shelf V) → f i ≡ none → Within f (stock i v f)
  Within-stock i v f free j u h = elim (Bool-cases (j == i)) [
    | inl y ↦ absurd (ground arith)
    | inr n ↦ ground arith
  ]

  pub stock_at : (i : ℕ) (v : V) (f : Shelf V) → stock i v f i ≡ some v
  stock_at i v f = ground arith

  Adds-Within :
      (show : ℕ → V → Shown) (v : V) (f g : Shelf V) (s : Seen) → Adds show v f s g → Within f g
  Adds-Within show v f g s (added i free shown e) =
      λ j u h. ap (λ k. k j) e ∙ Within-stock i v f free j u h
  Adds-Within show v f g s (failed shown e) = Within_of f g e

pub record Kept (σ σ' : Shop) : Type 0 where
  pub users : Within σ.users σ'.users
  pub menu : Within σ.menu σ'.menu
  pub orders : Within σ.orders σ'.orders

Kept-of_eq : (σ σ' : Shop) → σ' ≡ σ → Kept σ σ'
Kept-of_eq σ σ' e = record {
  users = Within_of σ.users σ'.users (ap (λ x. x.users) e);
  menu = Within_of σ.menu σ'.menu (ap (λ x. x.menu) e);
  orders = Within_of σ.orders σ'.orders (ap (λ x. x.orders) e);
}

Places-Within :
    (who : ℕ) (ws : List Wish) (σ : Shop) (s : Seen) (orders : Shelf Tab)
    → Places who ws σ s orders
    → Within σ.orders orders
Places-Within who ws σ s orders (taken a lines known able h) =
    Adds-Within tab (who, "pending", lines) σ.orders orders s h
Places-Within who ws σ s orders (turned_away why shown e) = Within_of σ.orders orders e

pub Serves-Kept : (c : Call) (σ σ' : Shop) (s : Seen) → Serves c σ s σ' → Kept σ σ'
Serves-Kept malformed σ σ' s (h, e) = Kept-of_eq σ σ' e
Serves-Kept list_users σ σ' s (h, e) = Kept-of_eq σ σ' e
Serves-Kept list_dishes σ σ' s (h, e) = Kept-of_eq σ σ' e
Serves-Kept list_orders σ σ' s (h, e) = Kept-of_eq σ σ' e
Serves-Kept (show_user i) σ σ' s (h, e) = Kept-of_eq σ σ' e
Serves-Kept (show_dish i) σ σ' s (h, e) = Kept-of_eq σ σ' e
Serves-Kept (show_order i) σ σ' s (h, e) = Kept-of_eq σ σ' e
Serves-Kept (add_user a) σ σ' s (h, m, o) = record {
  users = Adds-Within account a σ.users σ'.users s h;
  menu = Within_of σ.menu σ'.menu m;
  orders = Within_of σ.orders σ'.orders o;
}
Serves-Kept (add_dish d) σ σ' s (h, u, o) = record {
  users = Within_of σ.users σ'.users u;
  menu = Adds-Within dish d σ.menu σ'.menu s h;
  orders = Within_of σ.orders σ'.orders o;
}
Serves-Kept (place who ws) σ σ' s (h, u, m) = record {
  users = Within_of σ.users σ'.users u;
  menu = Within_of σ.menu σ'.menu m;
  orders = Places-Within who ws σ s σ'.orders h;
}

-- Nothing is lost in a session.
pub Session-Kept : {σ σ' : Shop} {h : List (Call × Seen)} → Session σ h σ' → Kept σ σ'
Session-Kept {σ} closed = Kept-of_eq σ σ refl
Session-Kept (called {σ} {σ₁} {σ₂} c s served rest) =
    let first = Serves-Kept c σ σ₁ s served in
    let onward = Session-Kept rest in
    record {
      users = λ i v e. onward.users i v (first.users i v e);
      menu = λ i v e. onward.menu i v (first.menu i v e);
      orders = λ i v e. onward.orders i v (first.orders i v e);
    }

-- A look at what is there shows it.
pub Looks-at :
    {V : Type 0} (show : ℕ → V → Shown) (i : ℕ) (f : Shelf V) (s : Seen) (v : V)
    → f i ≡ some v
    → Looks show i f s
    → s ≡ shows 200 (show i v)
Looks-at show i f s v h (there u e shown) =
    shown ∙ ap (λ x. shows 200 (show i x)) (ground (arith, h, e))
Looks-at show i f s v h (missing e why) = absurd (ground (arith, h, e))

-- A list shows what is there, or is not available.
pub Lists-at :
    {V : Type 0} (show : List (ℕ × V) → Shown) (f : Shelf V) (s : Seen) (i : ℕ) (v : V)
    → i < 2 ^ 32
    → f i ≡ some v
    → Lists show f s
    → ((rows : List (ℕ × V)) × Has (i, v) rows × (s ≡ shows 200 (show rows))) ⊎ (s ≡ refused 500)
Lists-at show f s i v small e (all rows listed shown) = inl (rows, listed i v small e, shown)
Lists-at show f s i v small e (unavailable shown) = inr shown

-- An order that is shown when it is placed is there, pending, at the prices of the menu.
pub Places-shown :
    (who : ℕ) (ws : List Wish) (σ : Shop) (i : ℕ) (t : Tab) (orders : Shelf Tab)
    → Places who ws σ (shows 201 (tab i t)) orders
    → (lines : List Line) × (priced σ.menu ws ≡ some lines)
      × (t ≡ (who, "pending", lines))
      × (orders i ≡ some t)
Places-shown who ws σ i t orders (taken a lines known able (added j free shown e)) =
    let same : i ≡ j = ground arith in
    let is_t : t ≡ (who, "pending", lines) = ground arith in
    (
      lines,
      able,
      is_t,
      ap (λ k. k i) e
          ∙ ap (λ k. stock j (who, "pending", lines) σ.orders k) same
          ∙ stock_at j (who, "pending", lines) σ.orders
          ∙ ap some (sym is_t),
    )
Places-shown who ws σ i t orders (taken a lines known able (failed shown e)) = absurd (ground arith)
Places-shown who ws σ i t orders (turned_away why shown e) = absurd (ground arith)
