-- ===== src/System/Shelves.antt =====
-- What stands under each ID of the databases.
use ss2025_web.Gorm.{keyed, Model, DbResult, Table, IsTable, keyed}
use ss2025_web.Base.Word.{to_u32_small, to_u32, to_u32_small, int_to_i32}
use ss2025_web.Base.{
  Has, here, later, ◌<◌, ◌^◌, Has, ◌^◌, ◌<◌, ℕ, ◌≡◌, sym, ap, ◌∙◌, inl, inr, Option, none, some,
  List, [], ◌∷◌, map, ok, err, arith, Bool-cases, ◌==◌, Result-cases,
}
use Prim.Native.String.{String}
use mathlib.Core.Path.{fun_ext, subst}
use ss2025_web.User.RoundTrip as UserTrip
use ss2025_web.Menu.RoundTrip as MenuTrip
use ss2025_web.Order.RoundTrip as OrderTrip
use ss2025_web.Spec.{Shelf, stock, Shop, Line, Tab}
use ss2025_web.System.Lens.{World}
use ss2025_web.System.{Deployment}

abbrev pub look : {A V : Type 0} → (A → V) → DbResult A → Option V
look f (ok r) = some (f r)
look f (err e) = none

module _ {S M V X : Type 0} (db : Table S M) (preloads : List String) (model : M → Model)
    (view : M → V) (lawful : IsTable db preloads model view) (g : V → X) where
  abbrev pub shelf : S → Shelf X
  shelf s j = look (λ m. g (view m)) (db.first preloads j s)

  pub shelf_fresh :
      (m m' : M) (s s' : S) → db.create m s ≡ (ok m', s') → shelf s (model m').id ≡ none
  shelf_fresh m m' s s' made = elim (Result-cases (db.first preloads (model m').id s)) [
    | inl (r, e) ↦ absurd (lawful.create_fresh m m' s s' r made e)
    | inr (e, k) ↦ ap (look (λ m. g (view m))) k
  ]

  shelf-create_at :
      (m m' : M) (s s' : S) (j : ℕ)
      → (model m).deleted_at ≡ none
      → db.create m s ≡ (ok m', s')
      → shelf s' j ≡ stock (model m').id (g (view m)) (shelf s) j
  shelf-create_at m m' s s' j live made = elim (Bool-cases (j == (model m').id)) [
    | inl y ↦
        let (r, found, _, same) = lawful.create_first m m' s s' live made in
        let at : j ≡ (model m').id = ground arith in
        rw y (
          ap (λ i. look (λ m. g (view m)) (db.first preloads i s')) at
          ∙ ap (look (λ m. g (view m))) found
          ∙ ap (λ v. some (g v)) (same ∙ lawful.create_view m m' s s' made))
    | inr n ↦
        rw n (ap (look (λ m. g (view m))) (lawful.create_others m m' s s' j made (ground arith)))
  ]

  -- An insert stocks the shelf.
  pub shelf-create :
      (m m' : M) (s s' : S)
      → (model m).deleted_at ≡ none
      → db.create m s ≡ (ok m', s')
      → shelf s' ≡ stock (model m').id (g (view m)) (shelf s)
  shelf-create m m' s s' live made = fun_ext λ j. shelf-create_at m m' s s' j live made

  -- The list of all rows has what is on the shelf.
  pub shelf-keyed :
      (s : S) (rows : List M) (i : ℕ) (v : V)
      → db.find preloads s ≡ ok rows
      → look view (db.first preloads i s) ≡ some v
      → Has (i, v) (map (keyed model view) rows)
  shelf-keyed s rows i v found h = elim (Result-cases (db.first preloads i s)) [
    | inl (r, e) ↦
        let is_v : view r ≡ v = ground arith in
        subst (λ k. Has k (map (keyed model view) rows))
          (ap (λ j. (j, view r)) (lawful.first_id i s r e) ∙ ap (λ x. (i, x)) is_v)
          (lawful.first_find i s r rows e found)
    | inr (x, e) ↦ absurd (ground arith)
  ]

  listed_rows :
      {W : Type 0} (proto : M → W) (show : W → ℕ × X)
      (same : (m : M) → show (proto m) ≡ (to_u32 (model m).id, g (view m))) (r : M) (rows : List M)
      (i : ℕ) (v : X)
      → to_u32 (model r).id ≡ i
      → g (view r) ≡ v
      → Has (keyed model view r) (map (keyed model view) rows)
      → Has (i, v) (map show (map proto rows))
  listed_rows proto show same r [] i v at is_v h = elim h [ ]
  listed_rows proto show same r (m ∷ rows) i v at is_v (here e) = here (
      sym (
        same m
        ∙ ap (λ k. (to_u32 k.0, g k.1)) (sym e)
        ∙ ap (λ j. (j, g (view r))) at
        ∙ ap (λ x. (i, x)) is_v))
  listed_rows proto show same r (m ∷ rows) i v at is_v (later h) =
      later (listed_rows proto show same r rows i v at is_v h)

  -- The messages of the list of all rows show what is on the shelf, under the IDs that fit a message.
  pub shelf-listed :
      {W : Type 0} (proto : M → W) (show : W → ℕ × X)
      (same : (m : M) → show (proto m) ≡ (to_u32 (model m).id, g (view m))) (s : S) (rows : List M)
      → db.find preloads s ≡ ok rows
      → (i : ℕ) (v : X) → i < 2 ^ 32
      → shelf s i ≡ some v
      → Has (i, v) (map show (map proto rows))
  shelf-listed proto show same s rows found i v small h =
      elim (Result-cases (db.first preloads i s)) [
        | inl (r, e) ↦
            let is_v : g (view r) ≡ v = ground arith in
            let at : to_u32 (model r).id ≡ i =
              ap to_u32 (lawful.first_id i s r e) ∙ to_u32_small i small in
            listed_rows proto show same r rows i v at is_v (lawful.first_find i s r rows e found)
        | inr (x, e) ↦ absurd (ground arith)
      ]

-- An order as a message shows it.
abbrev pub wire_line : Line → Line
wire_line (i, q, p) = (to_u32 i, int_to_i32 q, p)

abbrev pub wire : Tab → Tab
wire (u, status, lines) = (to_u32 u, status, map wire_line lines)

module _ {U M O Err : Type 0} (d : Deployment U M O Err) where
  -- The databases as their clients see them.
  abbrev pub shop_of : World U M O → Shop
  shop_of w = record {
    users = λ i. look UserTrip.columns (d.users.first [] i w.users);
    menu = λ i. look MenuTrip.columns (d.menu.first [] i w.menu);
    orders =
        λ i. look (λ o. wire (OrderTrip.columns o)) (d.orders.first ("OrderItems" ∷ []) i w.orders);
  }

  pub same_users :
      (w w' : World U M O) → w'.users ≡ w.users → (shop_of w').users ≡ (shop_of w).users
  same_users w w' e = ap (λ s i. look UserTrip.columns (d.users.first [] i s)) e

  pub same_menu : (w w' : World U M O) → w'.menu ≡ w.menu → (shop_of w').menu ≡ (shop_of w).menu
  same_menu w w' e = ap (λ s i. look MenuTrip.columns (d.menu.first [] i s)) e

  pub same_orders :
      (w w' : World U M O) → w'.orders ≡ w.orders → (shop_of w').orders ≡ (shop_of w).orders
  same_orders w w' e =
      ap (λ s i. look (λ o. wire (OrderTrip.columns o)) (d.orders.first ("OrderItems" ∷ []) i s)) e
