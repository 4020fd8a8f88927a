-- ===== src/System.antt =====
-- The services of practical6-example together: three databases, three gRPC servers, the order server
-- a client of the other two, and the gateway in front. A connection is in process: a procedure that
-- panics loses it, and nothing else does.
pub mod Lens
pub mod Lawful
pub mod Safety
pub mod Orders
pub mod Atomic
pub mod Walkthrough
pub mod Rows
pub mod Effects
pub mod Books
pub mod Reach
pub mod Calls
pub mod Concurrent
pub mod Answers
pub mod Ordering
pub mod Shelves
pub mod Refines
pub mod Sessions
pub mod InFlight
pub mod Linear
pub mod Progress
pub mod Quantities
pub mod Menus
use ss2025_web.Base.{◌-◌, String, not, if◌then◌else◌, err}
use ss2025_web.Gorm.{Time, Table}
use ss2025_web.Rpc.{Status, dial}
use ss2025_web.User.{User}
use ss2025_web.User.Server as UserServer
use ss2025_web.Menu.{MenuItem}
use ss2025_web.Menu.Server as MenuServer
use ss2025_web.Order.{Order}
use ss2025_web.Order.Server as OrderServer
use ss2025_web.Order.Server.{OrderServer}
use ss2025_web.Clients.{UserClient, MenuClient, OrderClient}
use ss2025_web.Gateway.{ServiceClients}
use ss2025_web.System.Lens.{World, users_lens, menu_lens, orders_lens, zoom}

-- One database for each service, the status package, the clock's format, and the error of a lost
-- connection.
pub record Deployment (U M O Err : Type 0) : Type 0 where
  pub status : Status Err
  pub users : Table U User
  pub menu : Table M MenuItem
  pub orders : Table O Order
  pub rfc3339 : Time → String
  pub lost : Err

module _ {U M O Err : Type 0} (d : Deployment U M O Err) where
  abbrev pub users_table : Table (World U M O) User
  users_table = zoom users_lens d.users

  abbrev pub menu_table : Table (World U M O) MenuItem
  menu_table = zoom menu_lens d.menu

  abbrev pub orders_table : Table (World U M O) Order
  orders_table = zoom orders_lens d.orders

  abbrev pub user_client : UserClient (World U M O) Err
  user_client = record {
    create_user = dial d.lost (UserServer.create_user d.status users_table d.rfc3339);
    get_user = dial d.lost (UserServer.get_user d.status users_table d.rfc3339);
    get_users = dial d.lost (UserServer.get_users d.status users_table d.rfc3339);
  }

  abbrev pub menu_client : MenuClient (World U M O) Err
  menu_client = record {
    get_menu_item = dial d.lost (MenuServer.get_menu_item d.status menu_table d.rfc3339);
    get_menu = dial d.lost (MenuServer.get_menu d.status menu_table d.rfc3339);
    create_menu_item = dial d.lost (MenuServer.create_menu_item d.status menu_table d.rfc3339);
  }

  abbrev pub order_server : OrderServer (World U M O) Err
  order_server = record { user_client = user_client; menu_client = menu_client }

  abbrev pub order_client : OrderClient (World U M O) Err
  order_client = record {
    create_order =
        dial d.lost (OrderServer.create_order d.status order_server orders_table d.rfc3339);
    get_orders = dial d.lost (OrderServer.get_orders d.status order_server orders_table d.rfc3339);
    get_order = dial d.lost (OrderServer.get_order d.status order_server orders_table d.rfc3339);
  }

  abbrev pub gateway_clients : ServiceClients (World U M O) Err
  gateway_clients = record {
    user_client = user_client;
    menu_client = menu_client;
    order_client = order_client;
  }
