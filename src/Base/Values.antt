-- ===== src/Base/Values.antt =====
-- The JavaScript values that cross HTTP and that caches hold.
use Prim.Native.Nat.{ℕ}
use Prim.Native.String.{String}
use mathlib.Core.Bool.{Bool, true, false, not}
use study_microsservices_nod.Base.Tests.{◌==◌, ◌=ₛ◌}

-- An array holds values and an object holds them under names, so the three types are one block.
mutual
  pub data Elements : Type 0 where
    no_elements : Elements
    element : Value → Elements → Elements

  pub data Members : Type 0 where
    no_members : Members
    member : String → Value → Members → Members

  pub data Value : Type 0 where
    bool : Bool → Value
    num : ℕ → Value
    str : String → Value
    undefined null : Value
    array : Elements → Value
    object : Members → Value

-- `if (value)`
abbrev pub is_truthy : Value → Bool
is_truthy undefined = false
is_truthy null = false
is_truthy (bool b) = b
is_truthy (num n) = not (n == 0)
is_truthy (str s) = not (s =ₛ "")
is_truthy (array xs) = true
is_truthy (object fs) = true
