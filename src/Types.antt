-- ===== src/Types.antt =====
-- The data that the components pass to one another: JSON values, messages and the caller's identity
-- (internal/types/request.go, internal/model/msg_content.go, internal/model/user.go).
use chat_rag.Common.{ℕ, Bool, Text, List, Option, ℤ}

-- A finite float64: the mantissa halved that many times. `beyond` is what the platform's conversion to
-- an int gives where the value does not fit, which Go leaves to the implementation.
pub record Float64 : Type 0 where
  pub mantissa : ℤ
  pub halvings : ℕ
  pub beyond : ℤ

-- A decoded `interface{}`. A number is the float64 that it is parsed to.
mutual
  pub data Json : Type 0 where
    null : Json
    bool : Bool → Json
    num : Float64 → Json
    str : Text → Json
    arr : Items → Json
    obj : Fields → Json

  pub data Items : Type 0 where
    nil : Items
    cons : Json → Items → Items

  pub data Fields : Type 0 where
    end : Fields
    field : Text → Json → Fields → Fields

-- `model.Content`; `cache_control` is `none` where the field is nil.
pub record ContentPart : Type 0 where
  pub kind : Text
  pub text_body : Text
  pub cache_control : Option Json

-- The dynamic types that `Message.Content` is tested for.
pub data Content : Type 0 where
  absent : Content
  string : Text → Content
  list : List Json → Content
  parts : List ContentPart → Content
  other : Json → Content

pub record Message : Type 0 where
  pub role : Text
  pub content : Content
  pub extra : Fields

-- Instants and durations count nanoseconds.
pub record UserInfo : Type 0 where
  pub vip : ℤ
  pub vip_expire : Option ℕ

pub record Identity : Type 0 where
  pub client_id : Text
  pub client_version : Text
  pub client_os : Text
  pub project_path : Text
  pub auth_token : Text
  pub user_name : Text
  pub language : Text
  pub user_info : Option UserInfo
