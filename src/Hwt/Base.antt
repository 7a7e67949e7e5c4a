-- ===== src/Hwt/Base.antt =====
-- hwt/include/hwt/base.h and hwt/include/hwt/event.h, and the operations on `float` that hwt uses.
use htools.Prelude.{ℕ, Bool, true, false, if◌then◌else◌}

-- `float` is a parameter: a type with what the code asks of it.
pub record Floats (F : Type 0) : Type 0 where
  pub zero_ : F
  pub add : F → F → F
  pub sub : F → F → F
  pub div : F → F → F
  pub of_size : ℕ → F
  pub less : F → F → Bool
  pub less_eq : F → F → Bool

pub record Rect (F : Type 0) : Type 0 where
  pub x : F
  pub y : F
  pub width : F
  pub height : F

pub record Size (F : Type 0) : Type 0 where
  pub width : F
  pub height : F

-- `enum HWTEventFlow`.
pub data Flow : Type 0 where
  break_ continue_ : Flow

-- `struct HWTEvent`, with `enum HWTEventType` for its union.
pub data Event (F : Type 0) : Type 0 where
  expose : Rect F → Event F
  pointer_down : F → F → ℕ → Event F
  pointer_move : F → F → ℕ → Event F
  pointer_up : F → F → ℕ → Event F
  resize : Size F → Event F

abbrev pub is_break : Flow → Bool
is_break break_ = true
is_break continue_ = false

-- `MAX(a, b)` of hutils.
abbrev pub maximum : {F : Type 0} → Floats F → F → F → F
maximum floats a b = if floats.less b a then a else b
