-- ===== src/Rpc/Inversion.antt =====
-- How a procedure of the servers' usual shape ends: it asks the database, turns an error into a
-- status, and answers.
use ss2025_web.Rpc.{Outcome, Exec, returns, fails, panics, pure, call, query, or_raise, ◌>>=◌}
use ss2025_web.Base.{refl, ◌⊎◌, ◌≡◌, ◌≢◌, Result, ok, err, arith, Result-cases, inl, inr}

module _ {S Err E A B : Type 0} (f : E → Err) (g : A → B) where
  -- A procedure that only reads.
  abbrev pub reads : (S → Result E A) → Exec S Err B
  reads q = do found ← query q; a ← or_raise found f; pure (g a)

  -- A procedure that writes.
  abbrev pub writes : (S → Result E A × S) → Exec S Err B
  writes q = do made ← call q; a ← or_raise made f; pure (g a)

  pub reads-returns :
      (q : S → Result E A) (s s' : S) (b : B)
      → reads q s ≡ (returns b, s')
      → (a : A) × (q s ≡ ok a) × (b ≡ g a) × (s' ≡ s)
  reads-returns q s s' b h = elim (Result-cases (q s)) [
    | inl (a, e) ↦ (a, e, ground arith, ground arith)
    | inr (d, e) ↦ absurd (ground arith)
  ]

  pub reads-fails :
      (q : S → Result E A) (s s' : S) (e : Err)
      → reads q s ≡ (fails e, s')
      → (d : E) × (q s ≡ err d) × (e ≡ f d) × (s' ≡ s)
  reads-fails q s s' e h = elim (Result-cases (q s)) [
    | inl (a, k) ↦ absurd (ground arith)
    | inr (d, k) ↦ (d, k, ground arith, ground arith)
  ]

  pub writes-returns :
      (q : S → Result E A × S) (s s' : S) (b : B)
      → writes q s ≡ (returns b, s')
      → (a : A) × (q s ≡ (ok a, s')) × (b ≡ g a)
  writes-returns q s s' b h = elim (Result-cases (q s).0) [
    | inl (a, e) ↦ (a, ground arith, ground arith)
    | inr (d, e) ↦ absurd (ground arith)
  ]

  pub writes-fails :
      (q : S → Result E A × S) (s s' : S) (e : Err)
      → writes q s ≡ (fails e, s')
      → (d : E) × (q s ≡ (err d, s')) × (e ≡ f d)
  writes-fails q s s' e h = elim (Result-cases (q s).0) [
    | inl (a, k) ↦ absurd (ground arith)
    | inr (d, k) ↦ (d, ground arith, ground arith)
  ]

  pub writes-ne-panics : (q : S → Result E A × S) (s : S) → (writes q s).0 ≢ panics
  writes-ne-panics q s h = elim (Result-cases (q s).0) [
    | inl (a, k) ↦ ground arith
    | inr (d, k) ↦ ground arith
  ]

  pub reads-ne-panics : (q : S → Result E A) (s : S) → (reads q s).0 ≢ panics
  reads-ne-panics q s h = elim (Result-cases (q s)) [
    | inl (a, k) ↦ ground arith
    | inr (d, k) ↦ ground arith
  ]

  pub reads_only : (q : S → Result E A) (s : S) → (reads q s).1 ≡ s
  reads_only q s = elim (Result-cases (q s)) [
    | inl (a, k) ↦ ground arith
    | inr (d, k) ↦ ground arith
  ]

pub Outcome-cases :
    {Err A : Type 0} (o : Outcome Err A)
    → ((a : A) × (o ≡ returns a)) ⊎ (((e : Err) × (o ≡ fails e)) ⊎ (o ≡ panics))
Outcome-cases (returns a) = inl (a, refl)
Outcome-cases (fails e) = inr (inl (e, refl))
Outcome-cases panics = inr (inr refl)

-- A chain that returns: both of its parts do.
pub bind-returns :
    {S Err A B : Type 0} (m : Exec S Err A) (f : A → Exec S Err B) (s s' : S) (b : B)
    → (m >>= f) s ≡ (returns b, s')
    → (a : A) × (s1 : S) × (m s ≡ (returns a, s1)) × (f a s1 ≡ (returns b, s'))
bind-returns m f s s' b h = elim (Outcome-cases (m s).0) [
  | inl (a, e) ↦ (a, (m s).1, ground arith, ground arith)
  | inr (inl (d, e)) ↦ absurd (ground arith)
  | inr (inr e) ↦ absurd (ground arith)
]
