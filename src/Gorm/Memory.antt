-- ===== src/Gorm/Memory.antt =====
-- A table in memory that meets `IsTable`: the newest row first, IDs counted up
-- while they have 32 bits.
use ss2025_web.Gorm.{keyed, Model, DbResult, DbError, failed, record_not_found, Table, IsTable}
use ss2025_web.Base.{
  later, here, Has, ap, inl, inr, Bool-cases, ◌^◌, ◌<◌, ltb, ℕ, suc, ◌≡◌, ◌≢◌, refl, List, [], ◌∷◌,
  map, ok, err, arith, ◌==◌, if◌then◌else◌, some, none,
}
use Prim.Native.String.{String}
use Prim.Native.Nat.{max}
use mathlib.Core.List.Perm
use mathlib.Core.Path.{subst}
use ss2025_web.Base.Decimal.{parse_uint32}

module _ {M : Type 0} (id : M → ℕ) where
  abbrev max_id : List M → ℕ
  max_id [] = 0
  max_id (m ∷ rows) = max (id m) (max_id rows)

  abbrev scan_rows : ℕ → List M → DbResult M
  scan_rows i [] = err record_not_found
  scan_rows i (m ∷ rows) = if id m == i then ok m else scan_rows i rows

  -- A text condition is read as an ID, or selects nothing.
  abbrev scan_text : String → List M → DbResult M
  scan_text s rows = elim (parse_uint32 s) [
    | none ↦ err record_not_found
    | some i ↦ scan_rows i rows
  ]

-- `put i m` is the model m under the ID i, with its associations numbered.
module _ {M : Type 0} (id : M → ℕ) (put : ℕ → M → M) where
  abbrev pub memory : Table (List M) M
  memory = record {
    create = λ m rows.
        let m' = put (suc (max_id id rows)) m in
        if ltb (suc (max_id id rows)) (2 ^ 32)
        then (ok m', m' ∷ rows)
        else (err (failed "out of IDs"), rows);
    first = λ preloads. scan_rows id;
    first_raw = scan_text id;
    first_bound = scan_text id;
    find = λ preloads rows. ok rows;
    error_text = λ e. "record not found";
  }

  pub memory-by_key :
      (text : String) (i : ℕ) (rows : List M)
      → parse_uint32 text ≡ some i
      → memory.first_raw text rows ≡ memory.first [] i rows
  memory-by_key text i rows h = ground arith

-- What `put` must do for the table to be lawful.
module _ {M V : Type 0} (model : M → Model) (put : ℕ → M → M) (view : M → V)
    (id-put : (i : ℕ) (m : M) → (model (put i m)).id ≡ i)
    (view-put : (i : ℕ) (m : M) → view (put i m) ≡ view m) where
  abbrev id : M → ℕ
  id m = (model m).id

  memory-create_first :
      (m m' : M) (s s' : List M)
      → (memory id put).create m s ≡ (ok m', s')
      → scan_rows id (id m') s' ≡ ok m'
  memory-create_first m m' s s' e = ground arith

  memory-create_atomic :
      (m : M) (s s' : List M) (e : DbError) → (memory id put).create m s ≡ (err e, s') → s' ≡ s
  memory-create_atomic m s s' e h = ground arith

  -- The IDs that it hands out fit a message.
  pub memory_fits :
      (m m' : M) (s s' : List M) → (memory id put).create m s ≡ (ok m', s') → id m' < 2 ^ 32
  memory_fits m m' s s' e = ground (arith, id-put (suc (max_id id s)) m)

  memory-create_others :
      (m m' : M) (s s' : List M) (j : ℕ)
      → (memory id put).create m s ≡ (ok m', s')
      → j ≢ id m'
      → scan_rows id j s' ≡ scan_rows id j s
  memory-create_others m m' s s' j e h = ground arith

  memory-create_view :
      (m m' : M) (s s' : List M) → (memory id put).create m s ≡ (ok m', s') → view m' ≡ view m
  memory-create_view m m' s s' e = ground (arith, view-put (suc (max_id id s)) m)

  memory-create_find :
      (m m' : M) (s s' rows rows' : List M)
      → (memory id put).create m s ≡ (ok m', s')
      → (memory id put).find [] s ≡ ok rows
      → (memory id put).find [] s' ≡ ok rows'
      → map view rows' ≡ view m ∷ map view rows
  memory-create_find m m' s s' rows rows' e p q = ground (arith, view-put (suc (max_id id s)) m)

  -- The ID is above all those in use.
  scan_rows_above : (j : ℕ) (s : List M) (r : M) → max_id id s < j → scan_rows id j s ≢ ok r
  scan_rows_above j [] r h e = cc
  scan_rows_above j (m ∷ s) r h e = scan_rows_above j s r (omega arith) (ground arith)

  memory-create_fresh :
      (m m' : M) (s s' : List M) (r : M)
      → (memory id put).create m s ≡ (ok m', s')
      → scan_rows id (id m') s ≢ ok r
  memory-create_fresh m m' s s' r e =
      scan_rows_above (id m') s r (ground (arith, id-put (suc (max_id id s)) m))

  scan_rows-id : (j : ℕ) (s : List M) (r : M) → scan_rows id j s ≡ ok r → id r ≡ j
  scan_rows-id j [] r e = cc
  scan_rows-id j (m ∷ s) r e = ground (arith, scan_rows-id j s r)

  scan_rows-Has :
      (j : ℕ) (s : List M) (r : M)
      → scan_rows id j s ≡ ok r
      → Has (keyed model view r) (map (keyed model view) s)
  scan_rows-Has j [] r e = absurd (ground arith)
  scan_rows-Has j (m ∷ s) r e = elim (Bool-cases (id m == j)) [
    | inl y ↦ here (ap (keyed model view) (ground arith))
    | inr n ↦ later (scan_rows-Has j s r (ground arith))
  ]

  memory-first_find :
      (j : ℕ) (s : List M) (r : M) (rows : List M)
      → scan_rows id j s ≡ ok r
      → (memory id put).find [] s ≡ ok rows
      → Has (keyed model view r) (map (keyed model view) rows)
  memory-first_find j s r rows e p =
      subst (λ l. Has (keyed model view r) (map (keyed model view) l)) (ground arith)
        (scan_rows-Has j s r e)

  pub memory-IsTable : (preloads : List String) → IsTable (memory id put) preloads model view
  memory-IsTable preloads = record {
    first_id = λ j s r h. scan_rows-id j s r h;
    create_atomic = memory-create_atomic;
    create_view = memory-create_view;
    create_first = λ m m' s s' live h. (m', memory-create_first m m' s s' h, refl, refl);
    create_fresh = memory-create_fresh;
    create_others = memory-create_others;
    create_find = λ m m' s s' rows rows' live h p q.
        rw (memory-create_find m m' s s' rows rows' h p q) (Perm.refl _);
    first_find = memory-first_find;
  }
