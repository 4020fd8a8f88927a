-- ===== src/System/Lens.antt =====
-- The state of the system, and a table of one service seen as a table of the whole.
use ss2025_web.Base.{ap, arith, ◌∙◌, ◌≡◌, refl, List, ok, err}
use ss2025_web.Gorm.{Model, DbResult, Table, IsTable}
use Prim.Native.String.{String}

pub record World (U M O : Type 0) : Type 0 where
  pub users : U
  pub menu : M
  pub orders : O

-- A part of the state.
pub record Lens (W S : Type 0) : Type 0 where
  pub get : W → S
  pub put : S → W → W

pub record IsLens {W S : Type 0} (l : Lens W S) : Type 0 where
  pub get-put : (s : S) (w : W) → l.get (l.put s w) ≡ s
  pub put-get : (w : W) → l.put (l.get w) w ≡ w

module _ {U M O : Type 0} where
  abbrev pub users_lens : Lens (World U M O) U
  users_lens = record { get = λ w. w.users; put = λ s w. record w { users = s } }

  abbrev pub menu_lens : Lens (World U M O) M
  menu_lens = record { get = λ w. w.menu; put = λ s w. record w { menu = s } }

  abbrev pub orders_lens : Lens (World U M O) O
  orders_lens = record { get = λ w. w.orders; put = λ s w. record w { orders = s } }

  pub users_lens-IsLens : IsLens (users_lens)
  users_lens-IsLens = record { get-put = λ s w. refl; put-get = λ w. refl }

  pub menu_lens-IsLens : IsLens (menu_lens)
  menu_lens-IsLens = record { get-put = λ s w. refl; put-get = λ w. refl }

  pub orders_lens-IsLens : IsLens (orders_lens)
  orders_lens-IsLens = record { get-put = λ s w. refl; put-get = λ w. refl }

abbrev pub zoom : {W S A : Type 0} → Lens W S → Table S A → Table W A
zoom l db = record {
  create = λ m w. let (r, s) = db.create m (l.get w) in (r, l.put s w);
  first = λ preloads i w. db.first preloads i (l.get w);
  first_raw = λ c w. db.first_raw c (l.get w);
  first_bound = λ c w. db.first_bound c (l.get w);
  find = λ preloads w. db.find preloads (l.get w);
  error_text = db.error_text;
}

module _ {W S A : Type 0} (l : Lens W S) (is : IsLens l) (db : Table S A) where
  zoom-create :
      (m : A) (w w' : W) (r : DbResult A)
      → (zoom l db).create m w ≡ (r, w')
      → (db.create m (l.get w) ≡ (r, l.get w')) × (w' ≡ l.put (l.get w') w)
  zoom-create m w w' r h = ground (arith, is.get-put (db.create m (l.get w)).1 w)

  pub zoom-IsTable :
      {V : Type 0} {preloads : List String} {model : A → Model} {view : A → V}
      → IsTable db preloads model view
      → IsTable (zoom l db) preloads model view
  zoom-IsTable {view} t = record {
    first_id = λ j w r h. t.first_id j (l.get w) r h;
    create_atomic = λ m w w' e h.
        let (made, moved) = zoom-create m w w' (err e) h in
        moved ∙ ap (λ s. l.put s w) (t.create_atomic m (l.get w) (l.get w') e made) ∙ is.put-get w;
    create_view =
        λ m m' w w' h. t.create_view m m' (l.get w) (l.get w') (zoom-create m w w' (ok m') h).0;
    create_first = λ m m' w w' live h.
        t.create_first m m' (l.get w) (l.get w') live (zoom-create m w w' (ok m') h).0;
    create_fresh = λ m m' w w' r h.
        t.create_fresh m m' (l.get w) (l.get w') r (zoom-create m w w' (ok m') h).0;
    create_others = λ m m' w w' j h ne.
        t.create_others m m' (l.get w) (l.get w') j (zoom-create m w w' (ok m') h).0 ne;
    create_find = λ m m' w w' rows rows' live h p q.
        t.create_find m m' (l.get w) (l.get w') rows rows' live (zoom-create m w w' (ok m') h).0 p
          q;
    first_find = λ j w r rows h p. t.first_find j (l.get w) r rows h p;
  }
