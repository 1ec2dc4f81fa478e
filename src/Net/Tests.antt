-- ===== src/Net/Tests.antt =====
-- Commands and frames as they go over the wire, in a build with overflow checks.
use opal.Prelude.{ℕ, List, ◌⊎◌, ap, ◌≡◌, ◌≢◌, ◌↔◌, refl, true, [], ◌∷◌, ◌++◌, length, arith}
use opal.Prelude.Int.{negsuc}
use opal.Env.{Env, Bytes, Cursor, documented, documented-IsDocumented, seek_by}
use opal.Net.Frame.Data.{Frame, array, bulk_string, integer, cons, nil, null, simple_string}
use opal.Net.Frame.Reader.{ok, get_integer, get_byte, get_line, line_loop}
use opal.Net.Frame.Parse.{check, check_tagged, parse, parse_tagged, from_utf8}
use opal.Net.Frame.I64.{in_i64}
use opal.Net.Frame.Utf8.{is_utf8}
use opal.Net.Frame.Decimal.{decimal}
use opal.Net.Frame.Reads.{crlf}
use opal.Net.Frame.Progress.{Ensures, Moved}
use opal.Net.Frame.Extend.{extend, Extends}
use opal.Net.Frame.Agree.{Agrees, check-Agrees-parse}
use opal.Net.Frame.Total.{check-parse-Moved, check-parse-Extends}
use opal.Net.Frame.Numbers.{get_integer-decimal}
use opal.Net.Connection.Write.{sent, write_frame}
use opal.Net.Connection.RoundTrip.{IsWritable}
use opal.Net.Connection.RoundTrip.Whole.{encoding, write_frame-encoding}
use opal.Net.Connection.Read.{
  frame, parse_frame, parse_checked, chunk, received, panicked, out_of_fuel, read_frame,
}
use opal.Net.Connection.Read.Pieces.{joined, arrivals, read_frame-arrivals}
use opal.Net.Connection.Read.Whole.{read_frame_ends, parse_frame-write_frame}
use opal.Net.Command.{Command, set, try_from, to_frame, ok as parsed}
use opal.Net.Command.Frames.{IsProper, try_from-eq-ok_iff}
use opal.Net.Trip.{try_from-read_frame}

abbrev key : Bytes
key = b'k' ∷ []

abbrev command : Command
command = set key (b'v' ∷ b'w' ∷ [])

abbrev request : Frame
request = to_frame command

abbrev reply : Frame
reply = array (
    cons (integer (negsuc 44))
      (cons null (cons (bulk_string key) (cons (simple_string (b'O' ∷ b'K' ∷ [])) nil))))

reply-IsWritable : IsWritable reply
unfolding in_i64 is_utf8
reply-IsWritable = ground arith

request-IsWritable : IsWritable request
unfolding to_frame
request-IsWritable = ground arith

command-IsProper : IsProper command
unfolding is_utf8
command-IsProper = refl

abbrev start : Bytes → Cursor
start bs = record { bytes = bs; position = 0 }

-- The start of an array of two elements.
abbrev beginning : Bytes
beginning = b'*' ∷ b'2' ∷ 13 ∷ 10 ∷ b':' ∷ b'1' ∷ 13 ∷ []

instance abbrev checks : Env
checks = documented true

check-parse-Moved_example :
    Ensures (Moved (start beginning) 1) (check 8 (start beginning))
    × Ensures (Moved (start beginning) 1) (parse 8 (start beginning))
check-parse-Moved_example =
    check-parse-Moved (documented-IsDocumented true) 8 (start beginning) (omega arith) (omega arith)

check-parse-Extends_example :
    Extends key (check 8 (start beginning)) (check 8 (extend key (start beginning)))
    × Extends key (parse 8 (start beginning)) (parse 8 (extend key (start beginning)))
check-parse-Extends_example =
    check-parse-Extends (documented-IsDocumented true) key 8 (start beginning)

check-Agrees-parse_example : Agrees (check 8 (start beginning)) (parse 8 (start beginning))
check-Agrees-parse_example = check-Agrees-parse (documented-IsDocumented true) 8 (start beginning)

abbrev number : Bytes
number = (decimal (negsuc 44) ++ crlf) ++ key

get_integer-decimal_example :
    get_integer (start number)
    ≡ ok (negsuc 44) (seek_by (start number) (length (decimal (negsuc 44) ++ crlf)))
unfolding in_i64
get_integer-decimal_example =
    get_integer-decimal (documented-IsDocumented true) (negsuc 44) (start number) key refl refl

write_frame-encoding_example : write_frame reply ≡ sent (encoding reply)
write_frame-encoding_example = write_frame-encoding reply reply-IsWritable

parse_frame-write_frame_example : parse_frame (encoding reply ++ beginning) ≡ frame reply beginning
parse_frame-write_frame_example =
    parse_frame-write_frame (documented-IsDocumented true) reply (encoding reply) beginning
      reply-IsWritable (write_frame-encoding reply reply-IsWritable)

read_frame_ends_example : read_frame [] (chunk beginning ∷ chunk beginning ∷ []) ≢ out_of_fuel
read_frame_ends_example =
    read_frame_ends (documented-IsDocumented true) (chunk beginning ∷ chunk beginning ∷ []) []

-- Each byte alone.
abbrev bytewise : Bytes → List (ℕ × Bytes)
bytewise [] = []
bytewise (b ∷ bs) = (b, []) ∷ bytewise bs

joined-bytewise : (bs : Bytes) → joined (bytewise bs) ≡ bs
joined-bytewise [] = refl
joined-bytewise (b ∷ bs) = ap (λ z. b ∷ z) (joined-bytewise bs)

read_frame-arrivals_example :
    ((left : Bytes) × (later : List (ℕ × Bytes)) × (read_frame []
          (arrivals (bytewise (encoding request ++ beginning)))
        ≡ received request left (arrivals later))
      × (left ++ joined later ≡ beginning))
    ⊎ (read_frame [] (arrivals (bytewise (encoding request ++ beginning))) ≡ panicked)
read_frame-arrivals_example =
    read_frame-arrivals (documented-IsDocumented true) request beginning []
      (bytewise (encoding request ++ beginning)) request-IsWritable
      (joined-bytewise (encoding request ++ beginning))

bytewise_lem :
    read_frame [] (arrivals (bytewise (b'+' ∷ b'O' ∷ 13 ∷ 10 ∷ key)))
    ≡ received (simple_string (b'O' ∷ [])) [] (arrivals (bytewise key))
unfolding read_frame parse_frame parse_checked check check_tagged parse parse_tagged get_byte
    get_line line_loop from_utf8 is_utf8
bytewise_lem = refl

try_from-eq-ok_iff_example :
    (try_from request ≡ parsed command) ↔ ((request ≡ to_frame command) × IsProper command)
try_from-eq-ok_iff_example = try_from-eq-ok_iff request command

try_from-read_frame_example :
    (bs : Bytes) × (write_frame request ≡ sent bs)
    × (read_frame (bs ++ beginning) [] ≡ received request beginning [])
    × (try_from request ≡ parsed command)
try_from-read_frame_example =
    try_from-read_frame (documented-IsDocumented true) command beginning [] command-IsProper
      request-IsWritable
