-- ===== src/Spec/Dishes.antt =====
-- What the clients of a server of the abstract cafe may rely on about the items of the menu.
use mathlib.Core.Path.{subst}
use ss2025_web.Base.{ℕ, ◌<◌, ◌^◌, ◌≡◌, ◌⊎◌, ap, ◌∙◌, some, List, All, Has, arith}
use ss2025_web.Spec.{
  Shelf, Dish, add_dish, show_dish, list_dishes, dish, dishes, Seen, shows, refused, Adds, added,
  failed, Serves,
}
use ss2025_web.Spec.Kept.{Session-Kept, Looks-at, Lists-at, stock_at}
use ss2025_web.Spec.Server.{Server, Implements, serve_all, serve_all-Session}

-- The item stands on the menu that is shown, or there is an error of the server.
abbrev pub IsOnMenu : ℕ → Dish → Seen → Type 0
IsOnMenu i d s =
    ((rows : List (ℕ × Dish)) × Has (i, d) rows × (s ≡ shows 200 (dishes rows))) ⊎ (s ≡ refused 500)

-- An item that is shown when it is added is the one that was to be added, and is there.
Adds-shown :
    (d : Dish) (f g : Shelf Dish) (i : ℕ) (u : Dish)
    → Adds dish d f (shows 201 (dish i u)) g
    → (u ≡ d) × (g i ≡ some u)
Adds-shown d f g i u (added j free shown e) =
    let at : i ≡ j = ground arith in
    let same : u ≡ d = ground arith in (same, rw (at, same) (ap (λ k. k j) e ∙ stock_at j d f))
Adds-shown d f g i u (failed shown e) = absurd (ground arith)

module _ {W Req : Type 0} (srv : Server W Req) {IsFit : Req → Type 0}
    (sound : Implements srv IsFit) where
  -- A request that adds an item to the menu and shows it.
  pub dish_added :
      (q : Req) (d : Dish) (i : ℕ) (u : Dish) (w : W)
      → IsFit q
      → srv.call q ≡ add_dish d
      → srv.reply q w ≡ shows 201 (dish i u)
      → (u ≡ d) × ((srv.view (srv.after q w)).menu i ≡ some u)
  dish_added q d i u w fit adding shown =
      let w' = srv.after q w in
      let (adds, _, _) =
        subst (λ c. Serves c (srv.view w) (srv.reply q w) (srv.view w')) adding (sound q w fit) in
      Adds-shown d (srv.view w).menu (srv.view w').menu i u
        (subst (λ s. Adds dish d (srv.view w).menu s (srv.view w').menu) shown adds)

  -- What is on the menu is shown after any requests.
  pub dish_shown :
      (qs : List Req) (q : Req) (i : ℕ) (u : Dish) (w : W)
      → All IsFit qs
      → IsFit q
      → srv.call q ≡ show_dish i
      → (srv.view w).menu i ≡ some u
      → srv.reply q (serve_all srv qs w).1 ≡ shows 200 (dish i u)
  dish_shown qs q i u w h fit asking there =
      let w' = (serve_all srv qs w).1 in
      let kept = (Session-Kept (serve_all-Session srv sound qs w h)).menu i u there in
      let (looks, _) =
        subst (λ c. Serves c (srv.view w') (srv.reply q w') (srv.view (srv.after q w'))) asking
          (sound q w' fit) in
      Looks-at dish i (srv.view w').menu (srv.reply q w') u kept looks

  -- What is on the menu is on every list of it.
  pub dish-IsOnMenu :
      (qs : List Req) (q : Req) (i : ℕ) (u : Dish) (w : W)
      → All IsFit qs
      → IsFit q
      → srv.call q ≡ list_dishes
      → i < 2 ^ 32
      → (srv.view w).menu i ≡ some u
      → IsOnMenu i u (srv.reply q (serve_all srv qs w).1)
  dish-IsOnMenu qs q i u w h fit asking small there =
      let w' = (serve_all srv qs w).1 in
      let kept = (Session-Kept (serve_all-Session srv sound qs w h)).menu i u there in
      let (lists, _) =
        subst (λ c. Serves c (srv.view w') (srv.reply q w') (srv.view (srv.after q w'))) asking
          (sound q w' fit) in
      Lists-at dishes (srv.view w').menu (srv.reply q w') i u small kept lists
