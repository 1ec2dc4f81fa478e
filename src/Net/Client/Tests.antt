-- ===== src/Net/Client/Tests.antt =====
-- Responses to a client, with more bytes behind.
use opal.Prelude.{◌≡◌, refl, some, [], ◌∷◌, ◌++◌, true, arith}
use opal.Prelude.Int.{pos}
use opal.Env.{Env, Bytes, documented, documented-IsDocumented}
use opal.Net.Frame.Data.{integer, simple_string}
use opal.Net.Frame.Utf8.{is_utf8}
use opal.Net.Frame.I64.{in_i64}
use opal.Net.Connection.RoundTrip.{IsWritable}
use opal.Net.Connection.RoundTrip.Whole.{encoding}
use opal.Net.Connection.Read.{broken}
use opal.Net.Command.{del_frame, get_frame, set_frame, bulk_strings}
use opal.Net.Server.{found, okay}
use opal.Net.Client.{ok, del, get, set}
use opal.Net.Client.Understands.{get-found, set-del-returns}

instance abbrev checks : Env
checks = documented true

abbrev key : Bytes
key = b'k' ∷ []

get-found_example :
    get key (encoding (found (some key)) ++ key) (broken ∷ [])
    ≡ (encoding (get_frame key), ok (some key) key (broken ∷ []))
get-found_example =
    get-found (documented-IsDocumented true) key (broken ∷ []) key (some key) (ground arith)
      (omega arith)

del_frame-IsWritable : IsWritable (del_frame (key ∷ key ∷ []))
unfolding bulk_strings
del_frame-IsWritable = ground arith

okay-IsWritable : IsWritable (simple_string okay)
unfolding is_utf8
okay-IsWritable = ground arith

two-IsWritable : IsWritable (integer (pos 2))
unfolding in_i64
two-IsWritable = refl

set-del-returns_example :
    (set key key (encoding (simple_string okay) ++ key) []
      ≡ (encoding (set_frame key key), ok tt key []))
    × (del (key ∷ key ∷ []) (encoding (integer (pos 2)) ++ key) []
        ≡ (encoding (del_frame (key ∷ key ∷ [])), ok (pos 2) key []))
set-del-returns_example =
    set-del-returns (documented-IsDocumented true) key [] key key (key ∷ key ∷ []) 2 (ground arith)
      del_frame-IsWritable okay-IsWritable two-IsWritable
