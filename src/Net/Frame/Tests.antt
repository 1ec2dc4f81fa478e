-- ===== src/Net/Frame/Tests.antt =====
-- Runs of the parser on the inputs of the unit tests in net/frame.rs.
use Prim.Native.Char.{code}
use Prim.Native.String.{String}
use opal.Prelude.{◌≡◌, refl, true, [], ◌∷◌, ◌++◌, length}
use opal.Prelude.Int.{negsuc, ◌+ℤ◌, ◌-ℤ◌, ◌*ℤ◌}
use opal.Env.{Bytes, Cursor, documented}
use opal.Net.Frame.Data.{Frame, integer, bulk_string, array, nil, cons}
use opal.Net.Frame.Reader.{
  Outcome, ok, panic, get_byte, peek_byte, get_line, line_loop, get_integer, skip,
}
use opal.Net.Frame.Parse.{parse, parse_items}

abbrev bytes_of : String → Bytes
bytes_of String.[] = []
bytes_of (String.◌∷◌ c s) = code c ∷ bytes_of s

abbrev crlf : Bytes
crlf = 13 ∷ 10 ∷ []

abbrev at_start : Bytes → Cursor
at_start bs = record { bytes = bs; position = 0 }

abbrev run_parse : Bytes → Outcome Frame
run_parse bs = parse ⦃e = documented true⦄ (length bs) (at_start bs)

abbrev sample : Bytes
sample =
    bytes_of "*2"
    ++ crlf
    ++ bytes_of "$3"
    ++ crlf
    ++ bytes_of "foo"
    ++ crlf
    ++ bytes_of ":-45"
    ++ crlf

parse_array_test :
    run_parse sample
    ≡ ok
        (array (cons (bulk_string (bytes_of "foo")) (cons (integer (negsuc 44)) nil)))
        (record { bytes = sample; position = 19 })
unfolding parse get_byte peek_byte get_line line_loop get_integer skip parse_items ◌+ℤ◌ ◌-ℤ◌ ◌*ℤ◌
parse_array_test = refl

sign_only_test : run_parse (bytes_of ":-") ≡ panic
unfolding parse get_byte peek_byte get_integer
sign_only_test = refl
