-- ===== src/System/Lawful.antt =====
-- What the deployed system rests on: the documented behaviour of the status package and of the three
-- tables, and IDs that fit the messages.
use ss2025_web.Base.{[], ◌∷◌}
use ss2025_web.Rpc.{IsStatus}
use ss2025_web.Gorm.{IsTable}
use ss2025_web.User.RoundTrip as UserTrip
use ss2025_web.Menu.RoundTrip as MenuTrip
use ss2025_web.Order.RoundTrip as OrderTrip
use ss2025_web.System.Lens.{
  users_lens-IsLens, menu_lens-IsLens, orders_lens-IsLens, users_lens, menu_lens, orders_lens,
  zoom-IsTable,
}
use ss2025_web.System.{Deployment, users_table, menu_table, orders_table}

pub record IsLawful {U M O Err : Type 0} (d : Deployment U M O Err) : Type 0 where
  pub status : IsStatus d.status
  pub users : IsTable d.users [] UserTrip.user_model UserTrip.columns
  pub menu : IsTable d.menu [] MenuTrip.item_model MenuTrip.columns
  pub orders : IsTable d.orders ("OrderItems" ∷ []) OrderTrip.order_model OrderTrip.columns
  pub user_ids : UserTrip.IdsFit d.users
  pub menu_ids : MenuTrip.IdsFit d.menu
  pub order_ids : OrderTrip.IdsFit d.orders

module _ {U M O Err : Type 0} {d : Deployment U M O Err} (law : IsLawful d) where
  pub users_law : IsTable (users_table d) [] UserTrip.user_model UserTrip.columns
  users_law = zoom-IsTable users_lens users_lens-IsLens d.users law.users

  pub menu_law : IsTable (menu_table d) [] MenuTrip.item_model MenuTrip.columns
  menu_law = zoom-IsTable menu_lens menu_lens-IsLens d.menu law.menu

  pub orders_law :
      IsTable (orders_table d) ("OrderItems" ∷ []) OrderTrip.order_model OrderTrip.columns
  orders_law = zoom-IsTable orders_lens orders_lens-IsLens d.orders law.orders

  pub users_fit : UserTrip.IdsFit (users_table d)
  users_fit m m' w w' h = law.user_ids m m' w.users w'.users (cc)

  pub menu_fit : MenuTrip.IdsFit (menu_table d)
  menu_fit m m' w w' h = law.menu_ids m m' w.menu w'.menu (cc)

  pub orders_fit : OrderTrip.IdsFit (orders_table d)
  orders_fit m m' w w' h = law.order_ids m m' w.orders w'.orders (cc)
