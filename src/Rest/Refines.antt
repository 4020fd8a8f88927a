-- ===== src/Rest/Refines.antt =====
-- The monolith beside the abstract cafe.
mod Rows
mod Orders
use Prim.Native.String.{String}
use mathlib.Core.Path.{subst}
use ss2025_web.Base.{ℕ, ◌≡◌, refl, sym, ap, Bool, true, Option, some, Result, ok, err}
use ss2025_web.Http.Handler.{Conn, run}
use ss2025_web.Gateway.Seen.{body_call, id_call}
use ss2025_web.Menu.{MenuItem}
use ss2025_web.Rest.{Value, Customer, OrderBody}
use ss2025_web.Rest.Monolith as Monolith
use ss2025_web.Rest.Cafe.{
  Database, Visit, post_user, get_user, get_menu, post_menu, new_order, get_orders, visit, rows_of,
  IsLawful, read, visit_call, IsPlain, IsServed, refused_with,
}
use ss2025_web.Spec.{Call, show_user, Serves, malformed}
use ss2025_web.System.Lens.{World}
use Rows.{user_posted, item_posted, user_shown, menu_listed, orders_listed}
use Orders.{order_posted}

module _ {U M O : Type 0} (db : Database U M O) (law : IsLawful db) (marshals : Value → Bool)
    (all : (v : Value) → marshals v ≡ true) where
  -- A body that does not decode is refused.
  undecoded : (e : String) (w : World U M O) → IsServed db malformed w (refused_with e 400 w)
  undecoded e w = (refl, refl)

  -- In a monolith whose tables meet Gorm.IsTable, while every value can be marshalled: any
  -- request to one of its routes, a user's ID in a path being a number of 32 bits and no posted row
  -- being a deleted one, is a call of the abstract cafe, where a user owns nothing. Its reply, as a
  -- status and the value shown, and the database after it, as what stands under each ID, are a reply
  -- to that call and a cafe after it that the abstract cafe has.
  pub visit_refines :
      (v : Visit) (w : World U M O)
      → IsPlain v
      → let c = run (visit db marshals v) w in
        Serves (visit_call v) (rows_of db w) (read c.writer) (rows_of db c.state)
  unfolding visit Monolith.create_user Monolith.create_menu_item Monolith.create_order
  visit_refines (post_user (ok u)) w h = user_posted db law marshals all u w (h u refl)
  visit_refines (post_user (err e)) w h = undecoded e w
  visit_refines (get_user id) w (i, h) =
      let conn = run (visit db marshals (get_user id)) w in
      subst (λ o. IsServed db (id_call show_user o) w conn) (sym h)
        (user_shown db law marshals all id i w h)
  visit_refines get_menu w h = menu_listed db law marshals all w
  visit_refines (post_menu (ok m)) w h = item_posted db law marshals all m w (h m refl)
  visit_refines (post_menu (err e)) w h = undecoded e w
  visit_refines (new_order (ok b)) w h = order_posted db law marshals all b w
  visit_refines (new_order (err e)) w h = undecoded e w
  visit_refines get_orders w h = orders_listed db law marshals all w
