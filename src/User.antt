-- ===== src/User.antt =====
-- user-service of practical6-example: the model, the messages of user.proto, and the gRPC server.
pub mod Server
pub mod Handlers
pub mod RoundTrip
pub mod Errors
use Prim.Native.String.{String}
use ss2025_web.Base.{ℕ, Bool, Option, List}
use ss2025_web.Gorm.{Model}

-- models.User
pub record User : Type 0 where
  pub model : Model
  pub name : String
  pub email : String
  pub is_cafe_owner : Bool

-- userv1.User
pub record UserMessage : Type 0 where
  pub id : ℕ
  pub name : String
  pub email : String
  pub is_cafe_owner : Bool
  pub created_at : String
  pub updated_at : String

pub record CreateUserRequest : Type 0 where
  pub name : String
  pub email : String
  pub is_cafe_owner : Bool

-- A field of message type is a pointer that may be nil.
pub record CreateUserResponse : Type 0 where
  pub user : Option UserMessage

pub record GetUserRequest : Type 0 where
  pub id : ℕ

pub record GetUserResponse : Type 0 where
  pub user : Option UserMessage

pub record GetUsersRequest : Type 0 where

pub record GetUsersResponse : Type 0 where
  pub users : List UserMessage
