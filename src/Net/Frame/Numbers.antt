-- ===== src/Net/Frame/Numbers.antt =====
-- `get_integer` on the decimal notation of the numbers that fit an `i64`.
use opal.Prelude.{◌≡◌, true, ◌++◌, length}
use opal.Prelude.Int.{ℤ}
use opal.Env.{Env, Bytes, Cursor, IsDocumented, for_documented, rest, seek_by}
use opal.Net.Frame.I64.{in_i64}
use opal.Net.Frame.Decimal.{decimal}
use opal.Net.Frame.Reader.{ok, get_integer}
use opal.Net.Frame.Reads.{crlf}
use opal.Net.Frame.Reads.Integer.{get_integer-Reads}

-- Where the decimal notation of an `i64` and a line end follow, `get_integer` returns that number and
-- stops behind the line end, wherever in the buffer it starts and whether the build checks overflow or
-- not.
pub get_integer-decimal :
    ⦃e : Env⦄ (laws : IsDocumented e) (x : ℤ) (c : Cursor) (r : Bytes)
    → in_i64 x ≡ true
    → rest c ≡ (decimal x ++ crlf) ++ r
    → get_integer c ≡ ok x (seek_by c (length (decimal x ++ crlf)))
get_integer-decimal ⦃e⦄ laws x c r h p =
    for_documented (λ e. get_integer ⦃e = e⦄ c ≡ ok x (seek_by c (length (decimal x ++ crlf))))
      (λ k. (get_integer-Reads k x h).at c r p) laws
