-- ===== src/System/Safety.antt =====
-- Nil dereferences in the order server of the deployed system, and the calls that only read.
use ss2025_web.Base.{◌≡◌, ◌≢◌, inl, inr, none, [], arith, ok, Result-cases}
use Prim.Native.String.{String}
use ss2025_web.Gorm.{Time, Table}
use ss2025_web.Rpc.{Status, Rpc, panics, dial}
use ss2025_web.Rpc.Inversion.{reads_only}
use ss2025_web.User.{User}
use ss2025_web.Menu.{MenuItem, GetMenuItemRequest}
use ss2025_web.User.Server as UserServer
use ss2025_web.Menu.Server as MenuServer
use ss2025_web.Order.Server.{create_order}
use ss2025_web.Order.{CreateOrderRequest}
use ss2025_web.Order.Create.{create_order_safe}
use ss2025_web.Clients.{ReadsOnly}
use ss2025_web.System.Lens.{World}
use ss2025_web.System.{
  Deployment, users_table, menu_table, orders_table, user_client, menu_client, order_server,
}

pub dial-ReadsOnly :
    {S Err Req Resp : Type 0} (lost : Err) (rpc : Rpc S Err Req Resp)
    → ((req : Req) (s : S) → (rpc req s).1 ≡ s)
    → ReadsOnly (dial lost rpc)
dial-ReadsOnly lost rpc h req s = ground (arith, h req s)

module _ {S Err : Type 0} (st : Status Err) (rfc3339 : Time → String) where
  get_user-ReadsOnly :
      (db : Table S User) (lost : Err) → ReadsOnly (dial lost (UserServer.get_user st db rfc3339))
  unfolding UserServer.get_user
  get_user-ReadsOnly db lost =
      dial-ReadsOnly lost _ (λ req s. reads_only _ _ (db.first [] req.id) s)

  get_menu_item-ReadsOnly :
      (db : Table S MenuItem) (lost : Err)
      → ReadsOnly (dial lost (MenuServer.get_menu_item st db rfc3339))
  unfolding MenuServer.get_menu_item
  get_menu_item-ReadsOnly db lost =
      dial-ReadsOnly lost _ (λ req s. reads_only _ _ (db.first [] req.id) s)

  -- The menu server answers with an item or an error.
  get_menu_item_full :
      (db : Table S MenuItem) (lost : Err) (q : GetMenuItemRequest) (s : S)
      → (dial lost (MenuServer.get_menu_item st db rfc3339) q s).0
        ≢ ok (record { menu_item = none })
  unfolding MenuServer.get_menu_item
  get_menu_item_full db lost q s h = elim (Result-cases (db.first [] q.id s)) [
    | inl (r, e) ↦ ground arith
    | inr (e, k) ↦ ground arith
  ]

module _ {U M O Err : Type 0} (d : Deployment U M O Err) where
  pub user_reads : ReadsOnly (user_client d).get_user
  user_reads = get_user-ReadsOnly d.status d.rfc3339 (users_table d) d.lost

  pub menu_reads : ReadsOnly (menu_client d).get_menu_item
  menu_reads = get_menu_item-ReadsOnly d.status d.rfc3339 (menu_table d) d.lost

  -- In the deployed system no CreateOrder panics, whatever the request and the databases.
  pub create_order-ne-panics :
      (req : CreateOrderRequest) (w : World U M O)
      → (create_order d.status (order_server d) (orders_table d) d.rfc3339 req w).0 ≢ panics
  create_order-ne-panics =
      create_order_safe d.status (order_server d) (orders_table d) d.rfc3339 user_reads menu_reads
        (get_menu_item_full d.status d.rfc3339 (menu_table d) d.lost)
