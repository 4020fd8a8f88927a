-- ===== src/Rest.antt =====
-- The REST services of practical5: the monolith, and the three services that it was split into. Here
-- are the monolith's user, the JSON values that the handlers write, and the body of an order.
pub mod Users
pub mod Menus
pub mod Orders
pub mod Monolith
pub mod Requests
pub mod Migration
pub mod Served
pub mod Prices
pub mod Loop
pub mod Known
pub mod Cafe
pub mod Refines
pub mod Sessions
use Prim.Native.String.{String}
use ss2025_web.Base.{ℕ, List}
use ss2025_web.Base.Word.{ℤ}
use ss2025_web.Gorm.{Model}
use ss2025_web.User.{User}
use ss2025_web.Menu.{Menu, MenuItem}
use ss2025_web.Order.{Order}

-- models.User of the monolith, which has no owner flag.
pub record Customer : Type 0 where
  pub model : Model
  pub name : String
  pub email : String

-- The values given to the JSON encoder.
pub data Value : Type 0 where
  customer : Customer → Value
  user : User → Value
  users : List User → Value
  menu : Menu → Value
  menu_item : MenuItem → Value
  menu_items : List MenuItem → Value
  order : Order → Value
  orders : List Order → Value

-- An item of `CreateOrderRequest.Items`.
pub record ItemBody : Type 0 where
  pub menu_item_id : ℕ
  pub quantity : ℤ

-- `CreateOrderRequest`
pub record OrderBody : Type 0 where
  pub user_id : ℕ
  pub items : List ItemBody
