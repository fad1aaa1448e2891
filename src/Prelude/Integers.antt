-- ===== src/Prelude/Integers.antt =====
-- Signed numbers over the native ones.
use Prim.Native.Nat.{ℕ, ◌+◌, ◌-◌, ◌%◌}
use mathlib.Core.Bool.{Bool, false}
use open_deck.Prelude.Tests.{ltb, if◌then◌else◌}

-- `negsuc n` is minus `n + 1`.
pub data ℤ : Type 0 where
  pos negsuc : ℕ → ℤ

infixl 40 ◌+ℤ◌
abbrev pub ◌+ℤ◌ : ℤ → ℤ → ℤ
pos a +ℤ pos b = pos (a + b)
pos a +ℤ negsuc b = if ltb b a then pos (a - b - 1) else negsuc (b - a)
negsuc a +ℤ pos b = if ltb a b then pos (b - a - 1) else negsuc (a - b)
negsuc a +ℤ negsuc b = negsuc (a + b + 1)

-- `abs`
abbrev pub abs : ℤ → ℕ
abs (pos n) = n
abs (negsuc n) = n + 1

-- `z > 0`
abbrev pub is_positive : ℤ → Bool
is_positive (pos n) = ltb 0 n
is_positive (negsuc n) = false

-- `static_cast<int8_t>`
abbrev pub to_int8 : ℤ → ℤ
to_int8 (pos n) = let r = n % 256 in if ltb r 128 then pos r else negsuc (255 - r)
to_int8 (negsuc n) = let r = n % 256 in if ltb r 128 then negsuc r else pos (255 - r)
