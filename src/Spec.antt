-- ===== src/Spec.antt =====
-- The cafe of practicals/practical6-example as a client of the gateway is to see it: what is found under
-- an ID, what a call asks for, and the replies that it may have. It names no database, server or table.
pub mod Kept
pub mod Prices
pub mod Fresh
pub mod Server
pub mod Dishes
use ss2025_web.Base.{
  ◌-◌, ◌/◌, not, ok, err, Has, ℕ, ◌<◌, ◌^◌, ◌≡◌, ◌⊎◌, Bool, Option, none, some, List, [], ◌∷◌, ◌==◌,
  if◌then◌else◌,
}
use Prim.Native.String.{String}
use ss2025_web.Base.Word.{ℤ, Float64}

-- What stands under each ID.
abbrev pub Shelf : Type 0 → Type 0
Shelf V = ℕ → Option V

abbrev pub stock : {V : Type 0} → ℕ → V → Shelf V → Shelf V
stock i v f j = if j == i then some v else f j

-- Name, email, and whether the user owns the cafe.
abbrev pub Account : Type 0
Account = String × String × Bool

-- Name, description and price.
abbrev pub Dish : Type 0
Dish = String × String × Float64

-- What an order wants of an item: its ID and the quantity.
abbrev pub Wish : Type 0
Wish = ℕ × ℤ

-- The same, with the price.
abbrev pub Line : Type 0
Line = ℕ × ℤ × Float64

-- An order: the user, the status and the lines.
abbrev pub Tab : Type 0
Tab = ℕ × String × List Line

pub record Shop : Type 0 where
  pub users : Shelf Account
  pub menu : Shelf Dish
  pub orders : Shelf Tab

pub data Call : Type 0 where
  malformed list_users list_dishes list_orders : Call
  add_user : Account → Call
  show_user : ℕ → Call
  add_dish : Dish → Call
  show_dish : ℕ → Call
  place : ℕ → List Wish → Call
  show_order : ℕ → Call

pub data Shown : Type 0 where
  nothing : Shown
  accounts : List (ℕ × Account) → Shown
  dishes : List (ℕ × Dish) → Shown
  tabs : List (ℕ × Tab) → Shown
  account : ℕ → Account → Shown
  dish : ℕ → Dish → Shown
  tab : ℕ → Tab → Shown

pub record Seen : Type 0 where
  pub status : ℕ
  pub shown : Shown

abbrev pub shows : ℕ → Shown → Seen
shows code v = record { status = code; shown = v }

abbrev pub refused : ℕ → Seen
refused code = shows code nothing

abbrev pub add_line : Wish → Option Dish → Option (List Line) → Option (List Line)
add_line (i, q) (some (_, _, price)) (some lines) = some ((i, q, price) ∷ lines)
add_line (i, q) none lines = none
add_line (i, q) (some d) none = none

-- The lines of an order at the prices of the menu, if every item is on it.
unfoldable pub priced : Shelf Dish → List Wish → Option (List Line)
priced menu [] = some []
priced menu (w ∷ ws) = let lines = priced menu ws in add_line w (menu w.0) lines

-- A value is put under an ID where nothing stood, and shown with it; or there is an error
-- of the server.
pub data Adds {V : Type 0} (show : ℕ → V → Shown) (v : V) (f : Shelf V) (s : Seen) (f' : Shelf V)
    : Type 0 where
  added : (i : ℕ) → f i ≡ none → s ≡ shows 201 (show i v) → f' ≡ stock i v f → Adds show v f s f'
  failed : s ≡ refused 500 → f' ≡ f → Adds show v f s f'

-- What stands under the ID is shown, or nothing stands there.
pub data Looks {V : Type 0} (show : ℕ → V → Shown) (i : ℕ) (f : Shelf V) (s : Seen) : Type 0 where
  there : (v : V) → f i ≡ some v → s ≡ shows 200 (show i v) → Looks show i f s
  missing : f i ≡ none → (s ≡ refused 404) ⊎ (s ≡ refused 500) → Looks show i f s

-- Everything that stands under an ID of 32 bits is listed, or there is an error of the server.
pub data Lists {V : Type 0} (show : List (ℕ × V) → Shown) (f : Shelf V) (s : Seen) : Type 0 where
  all :
      (rows : List (ℕ × V))
      → ((i : ℕ) (v : V) → i < 2 ^ 32 → f i ≡ some v → Has (i, v) rows)
      → s ≡ shows 200 (show rows)
      → Lists show f s
  unavailable : s ≡ refused 500 → Lists show f s

-- An order of a user who is there and of items that are all on the menu is added, pending, at the
-- prices of the menu; any other is refused.
pub data Places (who : ℕ) (wishes : List Wish) (σ : Shop) (s : Seen) (orders : Shelf Tab)
    : Type 0 where
  taken :
      (a : Account) (lines : List Line)
      → σ.users who ≡ some a
      → priced σ.menu wishes ≡ some lines
      → Adds tab (who, "pending", lines) σ.orders s orders
      → Places who wishes σ s orders
  turned_away :
      (σ.users who ≡ none) ⊎ (priced σ.menu wishes ≡ none)
      → s ≡ refused 400
      → orders ≡ σ.orders
      → Places who wishes σ s orders

-- One call, its reply, and the shop after it.
abbrev pub Serves : Call → Shop → Seen → Shop → Type 0
Serves malformed σ s σ' = (s ≡ refused 400) × (σ' ≡ σ)
Serves list_users σ s σ' = Lists accounts σ.users s × (σ' ≡ σ)
Serves list_dishes σ s σ' = Lists dishes σ.menu s × (σ' ≡ σ)
Serves list_orders σ s σ' = Lists tabs σ.orders s × (σ' ≡ σ)
Serves (add_user a) σ s σ' =
    Adds account a σ.users s σ'.users × (σ'.menu ≡ σ.menu) × (σ'.orders ≡ σ.orders)
Serves (show_user i) σ s σ' = Looks account i σ.users s × (σ' ≡ σ)
Serves (add_dish d) σ s σ' =
    Adds dish d σ.menu s σ'.menu × (σ'.users ≡ σ.users) × (σ'.orders ≡ σ.orders)
Serves (show_dish i) σ s σ' = Looks dish i σ.menu s × (σ' ≡ σ)
Serves (place who wishes) σ s σ' =
    Places who wishes σ s σ'.orders × (σ'.users ≡ σ.users) × (σ'.menu ≡ σ.menu)
Serves (show_order i) σ s σ' = Looks tab i σ.orders s × (σ' ≡ σ)

-- Calls with their replies, in the order in which they are made.
pub data Session : Shop → List (Call × Seen) → Shop → Type 0 where
  closed : {σ : Shop} → Session σ [] σ
  called :
      {σ σ₁ σ₂ : Shop} {h : List (Call × Seen)} (c : Call) (s : Seen)
      → Serves c σ s σ₁
      → Session σ₁ h σ₂
      → Session σ ((c, s) ∷ h) σ₂
