-- ===== src/Base/Int.antt =====
-- The C `int` as a signed number, with the values that the program returns.
use Prim.Native.Nat.{ℕ, ◌-◌}
use mathlib.Core.Bool.{Bool, true, false}
use ic35link.Base.{leb, if◌then◌else◌}

-- `negsuc n` is -(n + 1).
pub data ℤ : Type 0 where
  pos : ℕ → ℤ
  negsuc : ℕ → ℤ

-- a - b, as an integer.
abbrev pub sub_ℕ : ℕ → ℕ → ℤ
sub_ℕ a b = if leb b a then pos (a - b) else negsuc (b - a - 1)

-- `x < 0`
abbrev pub is_neg : ℤ → Bool
is_neg (pos n) = false
is_neg (negsuc n) = true

-- util.h and genproto.h: OK, ERR and ERR_intr.
abbrev pub ok : ℤ
ok = pos 0

abbrev pub err : ℤ
err = negsuc 0

abbrev pub err_intr : ℤ
err_intr = negsuc 1
