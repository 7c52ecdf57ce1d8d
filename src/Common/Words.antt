-- ===== src/Common/Words.antt =====
-- `int32_t` values as integers, and the conversions that wrap.
use grpc_c.Common.{ℕ, ◌+◌, ◌-◌, ◌%◌, ◌^◌, ◌≤◌, ◌<◌, ◌≡◌, arith, ltb, if◌then◌else◌}
use grpc_c.Common.Int.{ℤ, pos, negsuc, pos_part, neg_part}

-- (uint32_t)x and (int32_t)u.
unfoldable pub u32_of : ℤ → ℕ
u32_of (pos n) = n % 2 ^ 32
u32_of (negsuc n) = 2 ^ 32 - 1 - n % 2 ^ 32

unfoldable pub i32_of : ℕ → ℤ
i32_of u = if ltb u (2 ^ 31) then pos u else negsuc (2 ^ 32 - 1 - u)

-- (int32_t)n for a size_t n.
unfoldable pub truncate : ℕ → ℤ
unfolding i32_of
truncate n = i32_of (n % 2 ^ 32)

-- w += n and w -= n for an int32_t w and an unsigned n: the sum is formed in the unsigned type and
-- converted back.
unfoldable pub add_i32 : ℤ → ℕ → ℤ
unfolding i32_of u32_of
add_i32 w n = i32_of ((u32_of w + n) % 2 ^ 32)

unfoldable pub sub_i32 : ℤ → ℕ → ℤ
unfolding i32_of u32_of
sub_i32 w n = i32_of ((u32_of w + 2 ^ 32 - n % 2 ^ 32) % 2 ^ 32)

abbrev pub IsI32 : ℤ → Type 0
IsI32 w = (pos_part w < 2 ^ 31) × (neg_part w ≤ 2 ^ 31)

pub add_i32-IsI32 : (w : ℤ) (n : ℕ) → IsI32 (add_i32 w n)
unfolding add_i32
add_i32-IsI32 w n = ground arith

pub sub_i32-IsI32 : (w : ℤ) (n : ℕ) → IsI32 (sub_i32 w n)
unfolding sub_i32
sub_i32-IsI32 w n = ground arith

-- Where nothing wraps the operations are those of the integers.
pub add_i32-exact : (a n : ℕ) → a + n < 2 ^ 31 → add_i32 (pos a) n ≡ pos (a + n)
unfolding add_i32
add_i32-exact a n h = ground arith

pub add_i32_wraps :
    (a n : ℕ)
    → a < 2 ^ 31
    → n < 2 ^ 31
    → 2 ^ 31 ≤ a + n
    → add_i32 (pos a) n ≡ negsuc (2 ^ 32 - 1 - (a + n))
unfolding add_i32
add_i32_wraps a n ha hn h = ground arith

pub sub_i32-exact : (a n : ℕ) → a < 2 ^ 31 → n ≤ a → sub_i32 (pos a) n ≡ pos (a - n)
unfolding sub_i32
sub_i32-exact a n ha h = ground arith

pub truncate-exact : (n : ℕ) → n < 2 ^ 31 → truncate n ≡ pos n
unfolding truncate
truncate-exact n h = ground arith
