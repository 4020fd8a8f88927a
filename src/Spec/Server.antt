-- ===== src/Spec/Server.antt =====
-- A server that implements the abstract cafe, as an interface, and what its clients may rely on.
use mathlib.Core.Path.{subst}
use ss2025_web.Base.{ℕ, ◌<◌, ◌^◌, ◌≡◌, ◌⊎◌, some, List, [], ◌∷◌, All, Has}
use ss2025_web.Spec.{
  Shop, Wish, Line, Tab, Call, place, show_order, list_orders, tab, tabs, Seen, shows, refused,
  priced, Places, Serves, Session, closed, called,
}
use ss2025_web.Spec.Kept.{Session-Kept, Looks-at, Lists-at, Places-shown}

-- What stands under each ID, the call that a request is, its reply, and the state after it.
pub record Server (W Req : Type 0) : Type 0 where
  pub view : W → Shop
  pub call : Req → Call
  pub reply : Req → W → Seen
  pub after : Req → W → W

-- Every fit request is served as the abstract cafe serves its call.
abbrev pub Implements : {W Req : Type 0} → Server W Req → (Req → Type 0) → Type 0
Implements {W} {Req} srv IsFit =
    (q : Req) (w : W)
    → IsFit q
    → Serves (srv.call q) (srv.view w) (srv.reply q w) (srv.view (srv.after q w))

-- The tab stands on the list that is shown, or there is an error of the server.
abbrev pub IsListed : ℕ → Tab → Seen → Type 0
IsListed i t s =
    ((rows : List (ℕ × Tab)) × Has (i, t) rows × (s ≡ shows 200 (tabs rows))) ⊎ (s ≡ refused 500)

module _ {W Req : Type 0} (srv : Server W Req) where
  -- What the clients see of the requests in turn, and the state after the last.
  abbrev pub serve_all : List Req → W → List (Call × Seen) × W
  serve_all [] w = ([], w)
  serve_all (q ∷ qs) w =
      let (rest, w') = serve_all qs (srv.after q w) in ((srv.call q, srv.reply q w) ∷ rest, w')

  module _ {IsFit : Req → Type 0} (sound : Implements srv IsFit) where
    -- Requests make a session.
    pub serve_all-Session :
        (qs : List Req) (w : W)
        → All IsFit qs
        → let (history, w') = serve_all qs w in Session (srv.view w) history (srv.view w')
    serve_all-Session [] w h = closed
    serve_all-Session (q ∷ qs) w (fit, h) =
        called (srv.call q) (srv.reply q w) (sound q w fit) (serve_all-Session qs (srv.after q w) h)

    -- A request that places an order and shows it.
    pub order_placed :
        (q : Req) (who : ℕ) (ws : List Wish) (i : ℕ) (t : Tab) (w : W)
        → IsFit q
        → srv.call q ≡ place who ws
        → srv.reply q w ≡ shows 201 (tab i t)
        → ((lines : List Line) × (priced (srv.view w).menu ws ≡ some lines)
            × (t ≡ (who, "pending", lines)))
          × ((srv.view (srv.after q w)).orders i ≡ some t)
    order_placed q who ws i t w fit placing shown =
        let w' = srv.after q w in
        let (placed, _, _) =
          subst (λ c. Serves c (srv.view w) (srv.reply q w) (srv.view w')) placing
            (sound q w fit) in
        let (lines, able, is_t, there) =
          Places-shown who ws (srv.view w) i t (srv.view w').orders
            (subst (λ s. Places who ws (srv.view w) s (srv.view w').orders) shown placed) in
        ((lines, able, is_t), there)

    -- What is there is shown after any requests.
    pub order_shown :
        (qs : List Req) (q : Req) (i : ℕ) (t : Tab) (w : W)
        → All IsFit qs
        → IsFit q
        → srv.call q ≡ show_order i
        → (srv.view w).orders i ≡ some t
        → srv.reply q (serve_all qs w).1 ≡ shows 200 (tab i t)
    order_shown qs q i t w h fit asking there =
        let w' = (serve_all qs w).1 in
        let kept = (Session-Kept (serve_all-Session qs w h)).orders i t there in
        let (looks, _) =
          subst (λ c. Serves c (srv.view w') (srv.reply q w') (srv.view (srv.after q w'))) asking
            (sound q w' fit) in
        Looks-at tab i (srv.view w').orders (srv.reply q w') t kept looks

    -- What is there is on every list.
    pub order-IsListed :
        (qs : List Req) (q : Req) (i : ℕ) (t : Tab) (w : W)
        → All IsFit qs
        → IsFit q
        → srv.call q ≡ list_orders
        → i < 2 ^ 32
        → (srv.view w).orders i ≡ some t
        → IsListed i t (srv.reply q (serve_all qs w).1)
    order-IsListed qs q i t w h fit asking small there =
        let w' = (serve_all qs w).1 in
        let kept = (Session-Kept (serve_all-Session qs w h)).orders i t there in
        let (lists, _) =
          subst (λ c. Serves c (srv.view w') (srv.reply q w') (srv.view (srv.after q w'))) asking
            (sound q w' fit) in
        Lists-at tabs (srv.view w').orders (srv.reply q w') i t small kept lists
