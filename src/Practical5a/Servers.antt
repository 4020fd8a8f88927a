-- ===== src/Practical5a/Servers.antt =====
-- grpc/server.go of the three services of practicals/practical5a.
use Prim.Native.String.{String}
use ss2025_web.Gorm.{Time, Table}
use ss2025_web.Rpc.{Status, Rpc}
use ss2025_web.User.{
  User, CreateUserRequest, CreateUserResponse, GetUserRequest, GetUserResponse, GetUsersRequest,
  GetUsersResponse,
}
use ss2025_web.User.Server as UserServer
use ss2025_web.Menu.{
  MenuItem, CreateMenuItemRequest, CreateMenuItemResponse, GetMenuItemRequest, GetMenuItemResponse,
  GetMenuRequest, GetMenuResponse,
}
use ss2025_web.Menu.Server as MenuServer
use ss2025_web.Order.{
  Order, CreateOrderRequest, CreateOrderResponse, GetOrdersRequest, GetOrdersResponse,
  GetOrderRequest, GetOrderResponse,
}
use ss2025_web.Order.Server as OrderServer
use ss2025_web.Order.Server.{OrderServer}

module _ {S Err : Type 0} (st : Status Err) (rfc3339 : Time → String) where
  module _ (db : Table S User) where
    abbrev pub create_user : Rpc S Err CreateUserRequest CreateUserResponse
    create_user = UserServer.create_user st db rfc3339

    abbrev pub get_user : Rpc S Err GetUserRequest GetUserResponse
    get_user = UserServer.get_user st db rfc3339

    abbrev pub get_users : Rpc S Err GetUsersRequest GetUsersResponse
    get_users = UserServer.get_users st db rfc3339

  module _ (db : Table S MenuItem) where
    abbrev pub create_menu_item : Rpc S Err CreateMenuItemRequest CreateMenuItemResponse
    create_menu_item = MenuServer.create_menu_item st db rfc3339

    abbrev pub get_menu_item : Rpc S Err GetMenuItemRequest GetMenuItemResponse
    get_menu_item = MenuServer.get_menu_item st db rfc3339

    abbrev pub get_menu : Rpc S Err GetMenuRequest GetMenuResponse
    get_menu = MenuServer.get_menu st db rfc3339

  module _ (srv : OrderServer S Err) (db : Table S Order) where
    abbrev pub create_order : Rpc S Err CreateOrderRequest CreateOrderResponse
    create_order = OrderServer.create_order st srv db rfc3339

    abbrev pub get_orders : Rpc S Err GetOrdersRequest GetOrdersResponse
    get_orders = OrderServer.get_orders st srv db rfc3339

    abbrev pub get_order : Rpc S Err GetOrderRequest GetOrderResponse
    get_order = OrderServer.get_order st srv db rfc3339
