-- ===== src/Net/Listener/Tests.antt =====
-- A server that takes a connection at the second attempt, and one that never gets any.
use opal.Prelude.{ℕ, zero, suc, ◌≡◌, ◌≤◌, ◌⊎◌, ap, length, refl, some, List, [], ◌∷◌, arith}
use opal.Net.Listener.{
  default_config, Attempt, connection, failure, accepted, accept, new_shutdown, acquiring, draining,
  ended, Server, shuts_down, hears, ends, tell, recv, remove, new_server, acquires, accepts, step,
  Reach, here, next,
}
use opal.Net.Listener.Backoff.{IsAnswer, accept-IsAnswer}
use opal.Net.Listener.Permits.{IsBalanced, Reach-IsBalanced}
use opal.Net.Listener.Heard.{unheard}
use opal.Net.Listener.Drain.{Changes, change, still, GoesOn, Changes-GoesOn}
use opal.Net.Listener.Spawns.{run_events, run_events-acquires}

abbrev failures : ℕ → List Attempt
failures zero = []
failures (suc n) = failure ∷ failures n

accept-IsAnswer_example : IsAnswer 64000 (accept default_config (failures 64))
accept-IsAnswer_example =
    accept-IsAnswer default_config (failures 64) (omega arith) (omega arith) (omega arith)
      (omega arith)

abbrev attempts : List Attempt
attempts = failure ∷ connection 7 ∷ []

attempts_lem : accept default_config attempts ≡ accepted 7 500
unfolding accept
attempts_lem = refl

abbrev one_handler : Server
one_handler = record {
  permits = 127;
  phase = acquiring;
  handlers = record { socket = 7; shutdown = new_shutdown } ∷ [];
}

one_handler-Reach : Reach default_config (new_server default_config) one_handler
unfolding step accept
one_handler-Reach = next (next here acquires refl) (accepts attempts) refl

Reach-IsBalanced_example : IsBalanced default_config one_handler
Reach-IsBalanced_example = Reach-IsBalanced default_config one_handler one_handler-Reach

zero_one : (n : ℕ) → n ≡ 0 → n ≡ 1 → ⊥
zero_one n h k = omega (arith, h, k)

abbrev stopping : Server
stopping = record one_handler { phase = draining }

stopping-Reach : Reach default_config (new_server default_config) stopping
unfolding step
stopping-Reach = next one_handler-Reach shuts_down refl

abbrev drained : Server
drained = record { permits = 128; phase = draining; handlers = [] }

stopping-Changes : Changes default_config stopping (hears 0 ∷ ends 0 ∷ []) drained
unfolding step tell recv remove unheard
stopping-Changes =
    change (hears 0) refl (λ e. let n = ap (λ s. unheard s.handlers) e in zero_one 0 refl n)
      (change (ends 0) refl (λ e. let n = ap (λ s. length s.handlers) e in zero_one 0 refl n) still)

Changes-GoesOn_example :
    (2 ≤ 257)
    × (((drained.phase ≡ ended) × (drained.handlers ≡ [])) ⊎ GoesOn default_config drained)
Changes-GoesOn_example =
    Changes-GoesOn default_config stopping (hears 0 ∷ ends 0 ∷ []) drained stopping-Reach refl
      stopping-Changes

run_events-acquires_example :
    (permits : ℕ) × (127 ≡ suc permits)
    × (run_events default_config (acquires ∷ accepts attempts ∷ []) one_handler
        ≡ some (record {
          permits = permits;
          phase = acquiring;
          handlers = record { socket = 7; shutdown = new_shutdown } ∷ one_handler.handlers;
        }))
run_events-acquires_example =
    run_events-acquires default_config one_handler attempts 7 500 one_handler-Reach refl
      (omega arith) attempts_lem
