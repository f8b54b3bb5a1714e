-- ===== src/Json.antt =====
-- JSON values as Python holds them, and a recursive walk over them: `_redact_nested_contact` of
-- backend/app/state/session_persistence.py.
pub mod Redaction
use order_agent.Prelude.{Bool, String}

-- A number is kept by its printed form. A dictionary's entries stand in its order.
mutual
  pub data Json : Type 0 where
    null : Json
    bool : Bool → Json
    number : String → Json
    text : String → Json
    arr : Items → Json
    obj : Fields → Json

  pub data Items : Type 0 where
    nil : Items
    cons : Json → Items → Items

  pub data Fields : Type 0 where
    end : Fields
    field : String → Json → Fields → Fields
