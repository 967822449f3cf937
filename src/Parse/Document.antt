-- ===== src/Parse/Document.antt =====
-- What `serde_json` hands to a visitor, and its values.
use srh_rs.Base.{Bool, Option, Text}
use srh_rs.Resp.{ℤ}

-- A JSON value as it is read. An error of the package can stand in place of a value or of a member,
-- from its key on (with whether skipping over it succeeds all the same), or of the rest of a list.
mutual
  pub data Syntax (F : Type 0) : Type 0 where
    null : Syntax F
    boolean : Bool → Syntax F
    integer : ℤ → Syntax F
    real : F → Syntax F
    string : Text → Syntax F
    array : Elements F → Syntax F
    object : Members F → Syntax F
    broken : (skips : Bool) → Syntax F

  pub data Elements (F : Type 0) : Type 0 where
    end cut : Elements F
    element : Syntax F → Elements F → Elements F

  pub data Members (F : Type 0) : Type 0 where
    closed torn : Members F
    bad_member : (skips : Bool) → Members F
    member : Text → Syntax F → Members F → Members F

-- `serde_json::Value`.
mutual
  pub data Value (F : Type 0) : Type 0 where
    null : Value F
    boolean : Bool → Value F
    integer : ℤ → Value F
    real : F → Value F
    string : Text → Value F
    array : Values F → Value F
    object : Fields F → Value F

  pub data Values (F : Type 0) : Type 0 where
    nothing : Values F
    one : Value F → Values F → Values F

  pub data Fields (F : Type 0) : Type 0 where
    end : Fields F
    field : Text → Value F → Fields F → Fields F

-- The package: its floats, with those that a number can hold, how numbers and values are written,
-- and how a body is read: a value, and whether nothing follows it.
pub record Json : Type 1 where
  pub F : Type 0
  pub from_f64 : F → Option F
  pub show_int : ℤ → Text
  pub show_real : F → Text
  pub to_string : Value F → Option Text
  pub read : Text → Syntax F × Bool
