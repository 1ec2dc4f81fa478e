-- ===== src/Net/Frame/Total.antt =====
-- The checker and the parser on any bytes: they return, and do so again when more bytes follow.
use opal.Prelude.{ℕ, ◌+◌, ◌≤◌, ◌<◌, length}
use opal.Env.{Env, Bytes, Cursor, IsDocumented, for_documented}
use opal.Net.Frame.Parse.{check, parse}
use opal.Net.Frame.Progress.{Ensures, Moved}
use opal.Net.Frame.Fuel.{check_fuel, parse_fuel}
use opal.Net.Frame.Extend.{extend, Extends}
use opal.Net.Frame.Stable.{check-IsStable, parse-IsStable}

-- From a cursor inside its bytes, with fuel for more levels than there are bytes left, neither the
-- checker nor the parser runs out of fuel, and where one passes, it has left the bytes as they were
-- and stands at least one byte further on, not past their end.
pub check-parse-Moved :
    ⦃e : Env⦄ (laws : IsDocumented e) (fuel : ℕ) (c : Cursor)
    → c.position ≤ length c.bytes
    → length c.bytes < fuel + c.position
    → Ensures (Moved c 1) (check fuel c) × Ensures (Moved c 1) (parse fuel c)
check-parse-Moved ⦃e⦄ laws fuel c p h =
    for_documented
      (λ e. Ensures (Moved c 1) (check ⦃e = e⦄ fuel c) × Ensures (Moved c 1) (parse ⦃e = e⦄ fuel c))
      (λ k. (check_fuel k fuel c p h, parse_fuel k fuel c p h)) laws

-- What the checker and the parser return at some fuel they return again when more bytes stand behind
-- the cursor's: the same value at the same position, or the same error, unless the error was that the
-- frame is incomplete. Nothing is said where they panic or run out of fuel.
pub check-parse-Extends :
    ⦃e : Env⦄ (laws : IsDocumented e) (more : Bytes) (fuel : ℕ) (c : Cursor)
    → Extends more (check fuel c) (check fuel (extend more c))
      × Extends more (parse fuel c) (parse fuel (extend more c))
check-parse-Extends ⦃e⦄ laws more fuel c =
    for_documented
      (λ e.
        Extends more (check ⦃e = e⦄ fuel c) (check ⦃e = e⦄ fuel (extend more c))
        × Extends more (parse ⦃e = e⦄ fuel c) (parse ⦃e = e⦄ fuel (extend more c)))
      (λ k. ((check-IsStable k more fuel).at c, (parse-IsStable k more fuel).at c)) laws
