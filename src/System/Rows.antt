-- ===== src/System/Rows.antt =====
-- Rows of a table that meets Gorm.IsTable, across an insert.
use ss2025_web.Base.{none, ℕ, ◌≡◌, sym, ap, ◌∙◌, inl, inr, Bool-cases, ◌==◌, ok, List, arith}
use Prim.Native.String.{String}
use ss2025_web.Gorm.{Model, Table, IsTable}

module _ {S M V : Type 0} {db : Table S M} {preloads : List String} {model : M → Model}
    {view : M → V} (lawful : IsTable db preloads model view) where
  -- A row that is found stays as it is.
  pub first_kept :
      (m m' r : M) (s s' : S) (j : ℕ)
      → db.create m s ≡ (ok m', s')
      → db.first preloads j s ≡ ok r
      → db.first preloads j s' ≡ ok r
  first_kept m m' r s s' j made found = elim (Bool-cases (j == (model m').id)) [
    | inl y ↦
        let same : j ≡ (model m').id = ground arith in
        absurd (
          lawful.create_fresh m m' s s' r made (ap (λ i. db.first preloads i s) (sym same) ∙ found))
    | inr n ↦ lawful.create_others m m' s s' j made (ground arith) ∙ found
  ]

  -- What is found after an insert: the new row, or a row from before.
  pub data Found (m m' : M) (s : S) (j : ℕ) (r : M) : Type 0 where
    new : view r ≡ view m → Found m m' s j r
    old : db.first preloads j s ≡ ok r → Found m m' s j r

  pub first_after :
      (m m' r : M) (s s' : S) (j : ℕ)
      → (model m).deleted_at ≡ none
      → db.create m s ≡ (ok m', s')
      → db.first preloads j s' ≡ ok r
      → Found m m' s j r
  first_after m m' r s s' j live made found = elim (Bool-cases (j == (model m').id)) [
    | inl y ↦
        let (r', there, _, same) = lawful.create_first m m' s s' live made in
        let at : j ≡ (model m').id = ground arith in
        let one : ok r ≡ ok r' = sym found ∙ ap (λ i. db.first preloads i s') at ∙ there in
        new (ap view (ground arith) ∙ same ∙ lawful.create_view m m' s s' made)
    | inr n ↦ old (sym (lawful.create_others m m' s s' j made (ground arith)) ∙ found)
  ]
