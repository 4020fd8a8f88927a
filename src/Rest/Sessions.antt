-- ===== src/Rest/Sessions.antt =====
-- The monolith as a server of the abstract cafe: requests one after the other.
use ss2025_web.Base.{ℕ, ◌<◌, ◌^◌, ◌≡◌, refl, Bool, true, some, List, map, All, ok}
use ss2025_web.Http.Handler.{run}
use ss2025_web.Rest.{Value, OrderBody}
use ss2025_web.Rest.Cafe.{
  Database, Visit, new_order, get_orders, visit, rows_of, IsLawful, read, visit_call, IsPlain,
  body_wish,
}
use ss2025_web.Rest.Refines.{visit_refines}
use ss2025_web.Spec.{Tab, tab, Line, priced, shows}
use ss2025_web.Spec.Server.{
  Server, Implements, IsListed, serve_all, order_placed, order-IsListed, serve_all-Session,
}
use ss2025_web.Spec.Fresh.{IsDistinct, Session-IsDistinct}
use ss2025_web.System.Lens.{World}

module _ {U M O : Type 0} (db : Database U M O) (marshals : Value → Bool) where
  abbrev pub monolith : Server (World U M O) Visit
  monolith = record {
    view = rows_of db;
    call = visit_call;
    reply = λ v w. read (run (visit db marshals v) w).writer;
    after = λ v w. (run (visit db marshals v) w).state;
  }

  module _ (law : IsLawful db) (all : (v : Value) → marshals v ≡ true) where
    monolith-Implements : Implements monolith IsPlain
    monolith-Implements v w h = visit_refines db law marshals all v w h

    -- In a monolith whose tables meet Gorm.IsTable, while every value can be marshalled: where
    -- a POST of an order is answered with 201 and shows a tab under an ID of 32 bits, the tab is of the
    -- user of the body, pending, with the items of the body at the prices of the menu at that moment;
    -- and after any further requests, with numbers of 32 bits for the ID in a path and no row posted
    -- as a deleted one, a GET of all orders is answered with 200 and lists that tab under that ID, or
    -- is answered with 500 and no value.
    pub get_orders-visits :
        (b : OrderBody) (visits : List Visit) (i : ℕ) (t : Tab) (w : World U M O)
        → read (run (visit db marshals (new_order (ok b))) w).writer ≡ shows 201 (tab i t)
        → i < 2 ^ 32
        → All IsPlain visits
        → let w' =
            (serve_all monolith visits (run (visit db marshals (new_order (ok b))) w).state).1 in
          ((lines : List Line) × (priced (rows_of db w).menu (map body_wish b.items) ≡ some lines)
            × (t ≡ (b.user_id, "pending", lines)))
          × IsListed i t (read (run (visit db marshals get_orders) w').writer)
    get_orders-visits b visits i t w shown small h =
        let (placed, there) =
          order_placed monolith monolith-Implements (new_order (ok b)) b.user_id
            (map body_wish b.items) i t w tt refl shown in
        (
          placed,
          order-IsListed monolith monolith-Implements visits get_orders i t
              (run (visit db marshals (new_order (ok b))) w).state h tt refl small there,
        )

    -- In a monolith whose tables meet Gorm.IsTable, while every value can be marshalled: of any requests
    -- one after the other, with numbers of 32 bits for the ID in a path and no row posted as a deleted
    -- one, no two replies say with 201 that the same user, menu item or order was made.
    pub visits-IsDistinct :
        (visits : List Visit) (w : World U M O)
        → All IsPlain visits
        → IsDistinct (serve_all monolith visits w).0
    visits-IsDistinct visits w h =
        Session-IsDistinct (serve_all-Session monolith monolith-Implements visits w h)
