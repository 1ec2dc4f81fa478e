-- ===== src/Net/Listener/Spawns.antt =====
-- A server with a permit left takes the next connection.
use opal.Prelude.{
  ℕ, suc, ◌-◌, ◌<◌, ◌≡◌, refl, ap, ◌∙◌, subst, Option, none, some, List, [], ◌∷◌, length, arith,
}
use opal.Net.Listener.{
  Config, Attempt, accepted, accept, Handler, new_shutdown, acquiring, Server, new_server, Event,
  acquires, accepts, step, Reach,
}
use opal.Net.Listener.Permits.{Balance, Reach-IsBalanced}

abbrev after_step : Option Server → (Server → Option Server) → Option Server
after_step none f = none
after_step (some s) f = f s

unfoldable pub run_events : Config → List Event → Server → Option Server
run_events conf [] s = some s
run_events conf (e ∷ es) s = after_step (step conf e s) (run_events conf es)

-- Each handler hears of the shutdown and ends, and then the server.
module _ (conf : Config) where
  taken :
      (attempts : List Attempt) (socket t permits : ℕ) (hs : List Handler)
      → accept conf attempts ≡ accepted socket t
      → run_events conf
          (acquires ∷ accepts attempts ∷ [])
          (record { permits = suc permits; phase = acquiring; handlers = hs })
        ≡ some (record {
          permits = permits;
          phase = acquiring;
          handlers = record { socket = socket; shutdown = new_shutdown } ∷ hs;
        })
  unfolding run_events step
  taken attempts socket t permits hs a = rw a refl

  -- In every state that a new server reaches and in which it waits for a permit, with fewer handlers than
  -- connections are allowed, it takes the permit and the next connection that `accept` gives, and a handler
  -- starts on it that has not heard of a shutdown.
  pub run_events-acquires :
      (s : Server) (attempts : List Attempt) (socket t : ℕ)
      → Reach conf (new_server conf) s
      → s.phase ≡ acquiring
      → length s.handlers < conf.max_connections
      → accept conf attempts ≡ accepted socket t
      → (permits : ℕ) × (s.permits ≡ suc permits)
        × (run_events conf (acquires ∷ accepts attempts ∷ []) s
            ≡ some (record {
              permits = permits;
              phase = acquiring;
              handlers = record { socket = socket; shutdown = new_shutdown } ∷ s.handlers;
            }))
  run_events-acquires s attempts socket t r p l a =
      let b = subst (λ z. Balance conf z s.permits s.handlers) p (Reach-IsBalanced conf s r) in
      let q : s.permits ≡ suc (s.permits - 1) = omega (arith, b.0, l) in
      (
        s.permits - 1,
        q,
        ap
              (λ z.
                run_events conf (acquires ∷ accepts attempts ∷ [])
                  (record { permits = s.permits; phase = z; handlers = s.handlers }))
              p
            ∙ ap
                (λ z.
                  run_events conf (acquires ∷ accepts attempts ∷ [])
                    (record { permits = z; phase = acquiring; handlers = s.handlers }))
                q
            ∙ taken attempts socket t (s.permits - 1) s.handlers a,
      )
