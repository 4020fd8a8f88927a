-- ===== src/Clients.antt =====
-- The client interfaces that protoc generates in student-cafe-protos/gen/go, over the state behind
-- them, and what it means that a call only reads.
use ss2025_web.Base.{◌≡◌}
use ss2025_web.Rpc.{Call}
use ss2025_web.User.{
  CreateUserRequest, CreateUserResponse, GetUserRequest, GetUserResponse, GetUsersRequest,
  GetUsersResponse,
}
use ss2025_web.Menu.{
  CreateMenuItemRequest, CreateMenuItemResponse, GetMenuItemRequest, GetMenuItemResponse,
  GetMenuRequest, GetMenuResponse,
}
use ss2025_web.Order.{
  CreateOrderRequest, CreateOrderResponse, GetOrderRequest, GetOrderResponse, GetOrdersRequest,
  GetOrdersResponse,
}

-- userv1.UserServiceClient
pub record UserClient (S Err : Type 0) : Type 0 where
  pub create_user : Call S Err CreateUserRequest CreateUserResponse
  pub get_user : Call S Err GetUserRequest GetUserResponse
  pub get_users : Call S Err GetUsersRequest GetUsersResponse

-- menuv1.MenuServiceClient
pub record MenuClient (S Err : Type 0) : Type 0 where
  pub get_menu_item : Call S Err GetMenuItemRequest GetMenuItemResponse
  pub get_menu : Call S Err GetMenuRequest GetMenuResponse
  pub create_menu_item : Call S Err CreateMenuItemRequest CreateMenuItemResponse

-- orderv1.OrderServiceClient
pub record OrderClient (S Err : Type 0) : Type 0 where
  pub create_order : Call S Err CreateOrderRequest CreateOrderResponse
  pub get_orders : Call S Err GetOrdersRequest GetOrdersResponse
  pub get_order : Call S Err GetOrderRequest GetOrderResponse

-- A procedure that leaves the state behind it alone.
abbrev pub ReadsOnly : {S Err Req Resp : Type 0} → Call S Err Req Resp → Type 0
ReadsOnly {S} {Req} rpc = (req : Req) (s : S) → (rpc req s).1 ≡ s
