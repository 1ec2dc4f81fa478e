-- ===== src/Engine/Tests.antt =====
-- Requests to a handler over the engine.
use opal.Prelude.{ℕ, ℕ_discrete, ◌≡◌, refl, true, none, List, [], ◌∷◌, arith}
use opal.Prelude.Int.{ℤ, pos}
use opal.Env.{Env, Bytes, documented, documented-IsDocumented}
use opal.Net.Frame.Utf8.{is_utf8}
use opal.Net.Frame.I64.{in_i64}
use opal.Net.Command.{Command, del, get, set, to_frame}
use opal.Net.Server.{run, finished}
use opal.Net.Server.Serves.{requests, responses, AllExchanges}
use opal.Storage.Bitcask.Files.{created}
use opal.Storage.Bitcask.Store.{Store}
use opal.Storage.Bitcask.Store.Toy.{toy, toy-IsLawful}
use opal.Storage.Bitcask.Store.Fresh.{store, store-IsValid}
use opal.Storage.Bitcask.Store.Located.{view}
use opal.Storage.Bitcask.Store.Append.{Bytes-discrete}
use opal.Storage.Bitcask.Store.Session.{IsReady, Contents}
use opal.Engine.{handle}
use opal.Engine.Serves.{exchanges, expect_all, all_calls, costs, run-exchanges}

instance abbrev checks : Env
checks = documented true

abbrev key : Bytes
key = b'k' ∷ []

abbrev other : Bytes
other = b'm' ∷ []

abbrev commands : List Command
commands = set key (b'v' ∷ b'w' ∷ []) ∷ get key ∷ del (key ∷ other ∷ []) ∷ get key ∷ []

abbrev clock : ℕ → ℤ
clock calls = pos calls

abbrev empty : Contents
empty k = none

store-IsReady : IsReady toy store (all_calls commands) (costs toy clock 0 commands)
unfolding created
store-IsReady = record {
  valid = store-IsValid;
  is_open = refl;
  reader = (λ i. none, (λ i. none) ∷ [], refl);
  room = omega arith;
  ids = omega arith;
}

commands-AllExchanges : AllExchanges (exchanges commands empty)
unfolding is_utf8 in_i64 to_frame Bytes-discrete ℕ_discrete
commands-AllExchanges = ground arith

run-exchanges_example :
    (t : Store toy × ℕ) × (run
        (handle toy clock)
        9
        (store, 0)
        (requests (exchanges commands empty))
        []
      ≡ record { state = t; output = responses (exchanges commands empty); ended = finished })
    × ((j : Bytes) → view toy t.0 j ≡ expect_all commands empty j)
run-exchanges_example =
    run-exchanges toy toy-IsLawful clock (documented-IsDocumented true) commands 9 0 store empty
      (omega arith) commands-AllExchanges store-IsReady (λ j. refl)
