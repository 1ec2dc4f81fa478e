-- ===== src/Net/Frame/I64.antt =====
-- Arithmetic on `i64`: out of range the operators panic in a build that checks overflow and wrap
-- around in one that does not; the `checked_` methods return `None`.
use opal.Prelude.{ℕ, ◌-◌, ◌%◌, ◌^◌, Bool, Option, none, some, ltb, if◌then◌else◌}
use opal.Prelude.Int.{ℤ, pos, negsuc}
use opal.Env.{Env}

abbrev pub i64_bound : ℕ
i64_bound = 2 ^ 63

unfoldable pub in_i64 : ℤ → Bool
in_i64 (pos n) = ltb n i64_bound
in_i64 (negsuc n) = ltb n i64_bound

-- The value modulo 2 ^ 64 in the range of `i64`.
unfoldable pub wrap_i64 : ℤ → ℤ
wrap_i64 (pos n) = let m = n % 2 ^ 64 in if ltb m i64_bound then pos m else negsuc (2 ^ 64 - 1 - m)
wrap_i64 (negsuc n) =
    let m = n % 2 ^ 64 in if ltb m i64_bound then negsuc m else pos (2 ^ 64 - 1 - m)

-- `None` on overflow.
unfoldable pub checked : ℤ → Option ℤ
unfolding in_i64
checked x = if in_i64 x then some x else none

-- `none` is the panic of a build with overflow checks.
unfoldable pub unchecked : ⦃e : Env⦄ → ℤ → Option ℤ
unfolding in_i64 wrap_i64
unchecked ⦃e⦄ x = if in_i64 x then some x else if e.overflow_checks then none else some (wrap_i64 x)
