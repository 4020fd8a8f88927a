-- ===== src/Menu.antt =====
-- menu-service of practical6-example: the models, the messages of menu.proto, and the gRPC server.
pub mod Server
pub mod Handlers
pub mod RoundTrip
pub mod Errors
use Prim.Native.String.{String}
use ss2025_web.Base.{ℕ, Option, List}
use ss2025_web.Base.Word.{Float64}
use ss2025_web.Gorm.{Model}

-- models.MenuItem
pub record MenuItem : Type 0 where
  pub model : Model
  pub name : String
  pub description : String
  pub price : Float64

-- models.Menu
pub record Menu : Type 0 where
  pub model : Model
  pub name : String
  pub description : String
  pub menu_items : List MenuItem

-- menuv1.MenuItem
pub record MenuItemMessage : Type 0 where
  pub id : ℕ
  pub name : String
  pub description : String
  pub price : Float64
  pub created_at : String
  pub updated_at : String

pub record GetMenuItemRequest : Type 0 where
  pub id : ℕ

-- A field of message type is a pointer that may be nil.
pub record GetMenuItemResponse : Type 0 where
  pub menu_item : Option MenuItemMessage

pub record GetMenuRequest : Type 0 where

pub record GetMenuResponse : Type 0 where
  pub menu_items : List MenuItemMessage

pub record CreateMenuItemRequest : Type 0 where
  pub name : String
  pub description : String
  pub price : Float64

pub record CreateMenuItemResponse : Type 0 where
  pub menu_item : Option MenuItemMessage
