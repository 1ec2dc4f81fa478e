-- ===== src/Net/Server/Tests.antt =====
-- Requests to a handler over a storage of one slot.
use opal.Prelude.{◌≡◌, refl, Bool, true, false, Option, none, some, List, [], ◌∷◌, ◌++◌, arith}
use opal.Prelude.Int.{pos}
use opal.Env.{Env, Bytes, documented, documented-IsDocumented}
use opal.Net.Frame.Data.{Frame, integer, bulk_string, simple_string, null}
use opal.Net.Frame.Utf8.{is_utf8}
use opal.Net.Frame.I64.{in_i64}
use opal.Net.Connection.RoundTrip.Whole.{encoding}
use opal.Net.Connection.Read.{chunk}
use opal.Net.Command.{Command, Error as CommandError, del, get, set, to_frame}
use opal.Net.Command.Frames.{IsProper}
use opal.Net.Server.{KeyValueStorage, ok, apply, run, finished, failed, command, okay}
use opal.Net.Server.Serves.{
  requests, responses, AllExchanges, Answers, run-Answers, run-AllExchanges,
}

instance abbrev checks : Env
checks = documented false

abbrev has : Option Bytes → Bool
has none = false
has (some _) = true

abbrev slot : KeyValueStorage
slot = record {
  State = Option Bytes;
  Failure = Unit {0};
  set_key = λ key value s. ok tt (some value);
  get_key = λ key s. ok s s;
  del_key = λ key s. ok (has s) none;
}

abbrev key : Bytes
key = b'k' ∷ []

abbrev pairs : List (Command × Frame)
pairs =
    (set key key, simple_string okay)
    ∷ (get key, bulk_string key)
    ∷ (del (key ∷ key ∷ []), integer (pos 1))
    ∷ (get key, null)
    ∷ []

pairs-AllExchanges : AllExchanges pairs
unfolding is_utf8 in_i64 to_frame
pairs-AllExchanges = ground arith

pairs-Answers : Answers slot pairs none none
unfolding apply
pairs-Answers = (some key, refl, (some key, refl, (none, refl, (none, refl, refl))))

run-Answers_example :
    run slot 5 none (requests pairs) []
    ≡ record { state = none; output = responses pairs; ended = finished }
run-Answers_example =
    run-Answers slot (documented-IsDocumented false) pairs 5 none none (omega arith)
      pairs-AllExchanges pairs-Answers

no_command : (c : Command) → simple_string key ≡ to_frame c → IsProper c → ⊥
unfolding to_frame
no_command (del keys) e h = ground (arith, e)
no_command (get k) e h = ground (arith, e)
no_command (set k v) e h = ground (arith, e)

run-AllExchanges_example :
    (x : CommandError) × (run slot 5 none
        (requests pairs ++ (encoding (simple_string key) ++ key))
        (chunk key ∷ [])
      ≡ record { state = none; output = responses pairs; ended = failed (command x) })
unfolding is_utf8
run-AllExchanges_example =
    run-AllExchanges slot (documented-IsDocumented false) pairs (simple_string key) key
      (chunk key ∷ []) 5 none none (omega arith) pairs-AllExchanges pairs-Answers
      (refl, ground arith) no_command
