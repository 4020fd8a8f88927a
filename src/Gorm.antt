-- ===== src/Gorm.antt =====
-- gorm.io/gorm over one model. The package is not part of the repository: the calls that the
-- services make are a parameter `Table`, and `IsTable` is what the code relies on in them.
pub mod Memory
use ss2025_web.Base.{
  zero, ◌-◌, ◌/◌, ap, inl, not, Has, ℕ, ◌≡◌, ◌≢◌, Option, none, List, ◌∷◌, map, Result, ok, err,
}
use Prim.Native.String.{String}
use mathlib.Core.List.{Perm}

-- An instant, in nanoseconds from the zero `time.Time`.
abbrev pub Time : Type 0
Time = ℕ

-- `gorm.Model`, embedded in every model; `deleted_at` is set when a row is soft-deleted.
pub record Model : Type 0 where
  pub id : ℕ
  pub created_at : Time
  pub updated_at : Time
  pub deleted_at : Option Time

-- `record_not_found` is the sentinel `gorm.ErrRecordNotFound`.
pub data DbError : Type 0 where
  record_not_found : DbError
  failed : String → DbError

abbrev pub DbResult : Type 0 → Type 0
DbResult A = Result DbError A

-- `create` fills in the model's ID and times. `first` and `find` take the associations named by
-- Preload; `first_raw` is `First(&m, s)`, with a text as the inline condition, and `first_bound` is
-- `First(&m, "id = ?", s)`. `error_text` is an error's `Error()`.
pub record Table (S M : Type 0) : Type 0 where
  pub create : M → S → DbResult M × S
  pub first : List String → ℕ → S → DbResult M
  pub first_raw : String → S → DbResult M
  pub first_bound : String → S → DbResult M
  pub find : List String → S → DbResult (List M)
  pub error_text : DbError → String

-- A row's primary key and its columns.
abbrev pub keyed : {M V : Type 0} → (M → Model) → (M → V) → M → ℕ × V
keyed model view m = ((model m).id, view m)

-- What the package documents, for rows seen through `view` (the columns that the services set) and
-- a fixed list of preloads. Times may be rounded by the database, so `view` leaves them out. One thing
-- is assumed beyond the documents: where `view` shows the rows of an association, `create_first` has
-- Preload read them back in the order in which they were given. The package does not promise an
-- order for them, and the query that it makes has none.
pub record IsTable {S M V : Type 0} (db : Table S M) (preloads : List String) (model : M → Model)
    (view : M → V) : Type 0 where
  -- the row that is found has the primary key asked for
  pub first_id : (j : ℕ) (s : S) (r : M) → db.first preloads j s ≡ ok r → (model r).id ≡ j
  -- a failed insert is rolled back
  pub create_atomic : (m : M) (s s' : S) (e : DbError) → db.create m s ≡ (err e, s') → s' ≡ s
  -- the columns are those given
  pub create_view : (m m' : M) (s s' : S) → db.create m s ≡ (ok m', s') → view m' ≡ view m
  -- the new row can be read by its primary key, unless it is inserted as a deleted one
  pub create_first :
      (m m' : M) (s s' : S)
      → (model m).deleted_at ≡ none
      → db.create m s ≡ (ok m', s')
      → (r : M) × (db.first preloads (model m').id s' ≡ ok r)
        × ((model r).id ≡ (model m').id)
        × (view r ≡ view m')
  -- its primary key was not in use
  pub create_fresh :
      (m m' : M) (s s' : S) (r : M)
      → db.create m s ≡ (ok m', s')
      → db.first preloads (model m').id s ≢ ok r
  -- no other row changes
  pub create_others :
      (m m' : M) (s s' : S) (j : ℕ)
      → db.create m s ≡ (ok m', s')
      → j ≢ (model m').id
      → db.first preloads j s' ≡ db.first preloads j s
  -- the list of all rows gains the new one, unless it is inserted as a deleted one
  pub create_find :
      (m m' : M) (s s' : S) (rows rows' : List M)
      → (model m).deleted_at ≡ none
      → db.create m s ≡ (ok m', s')
      → db.find preloads s ≡ ok rows
      → db.find preloads s' ≡ ok rows'
      → Perm (map view rows') (view m ∷ map view rows)
  -- a row that can be read by its primary key is in the list of all rows
  pub first_find :
      (j : ℕ) (s : S) (r : M) (rows : List M)
      → db.first preloads j s ≡ ok r
      → db.find preloads s ≡ ok rows
      → Has (keyed model view r) (map (keyed model view) rows)

-- The model of a literal that sets none of its fields.
abbrev pub zero_model : Model
zero_model = record { id = 0; created_at = 0; updated_at = 0; deleted_at = none }
