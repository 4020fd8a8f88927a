-- ===== src/Order.antt =====
-- order-service of practical6-example: the models, the messages of order.proto, and the gRPC
-- server with its clients of the other two services.
pub mod Server
pub mod Snapshot
pub mod Items
pub mod Placing
pub mod Create
pub mod RoundTrip
pub mod Process
pub mod Handlers
use Prim.Native.String.{String}
use ss2025_web.Base.{ℕ, Option, List}
use ss2025_web.Base.Word.{ℤ, Float64}
use ss2025_web.Gorm.{Model}

-- models.OrderItem
pub record OrderItem : Type 0 where
  pub model : Model
  pub order_id : ℕ
  pub menu_item_id : ℕ
  pub quantity : ℤ
  pub price : Float64

-- models.Order
pub record Order : Type 0 where
  pub model : Model
  pub user_id : ℕ
  pub status : String
  pub order_items : List OrderItem

-- orderv1.OrderItem
pub record OrderItemMessage : Type 0 where
  pub id : ℕ
  pub order_id : ℕ
  pub menu_item_id : ℕ
  pub quantity : ℤ
  pub price : Float64
  pub created_at : String
  pub updated_at : String

-- orderv1.Order
pub record OrderMessage : Type 0 where
  pub id : ℕ
  pub user_id : ℕ
  pub status : String
  pub order_items : List OrderItemMessage
  pub created_at : String
  pub updated_at : String

pub record OrderItemRequest : Type 0 where
  pub menu_item_id : ℕ
  pub quantity : ℤ

pub record CreateOrderRequest : Type 0 where
  pub user_id : ℕ
  pub items : List OrderItemRequest

-- A field of message type is a pointer that may be nil.
pub record CreateOrderResponse : Type 0 where
  pub order : Option OrderMessage

pub record GetOrdersRequest : Type 0 where

pub record GetOrdersResponse : Type 0 where
  pub orders : List OrderMessage

pub record GetOrderRequest : Type 0 where
  pub id : ℕ

pub record GetOrderResponse : Type 0 where
  pub order : Option OrderMessage
