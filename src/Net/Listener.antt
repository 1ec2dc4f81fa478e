-- ===== src/Net/Listener.antt =====
-- net/server.rs: `Listener::accept` and `Listener::listen`, `Server::run` and `Handler::drop`; shutdown.rs;
-- the limits of net/config.rs. What the handlers do between their start and their end is in Server.
pub mod Backoff
pub mod Permits
pub mod Heard
pub mod Drain
pub mod Spawns
mod Tests
use opal.Prelude.{
  ℕ, zero, suc, ◌+◌, ◌*◌, ◌%◌, ◌^◌, ◌≡◌, Bool, true, false, Option, none, some, List, [], ◌∷◌, ◌++◌,
  ltb, ◌==◌, if◌then◌else◌,
}

pub record Config : Type 0 where
  pub min_backoff_ms : ℕ
  pub max_backoff_ms : ℕ
  pub max_connections : ℕ

abbrev pub default_config : Config
default_config = record { min_backoff_ms = 500; max_backoff_ms = 64000; max_connections = 128 }

-- What one `accept` of the socket gives.
pub data Attempt : Type 0 where
  connection : ℕ → Attempt
  failure : Attempt

-- The socket, or the error, and how long `accept` slept in all; `waiting` when no more attempt comes.
pub data Accepted : Type 0 where
  accepted : ℕ → ℕ → Accepted
  gave_up : ℕ → Accepted
  waiting : Accepted

abbrev pub slept : ℕ → Accepted → Accepted
slept ms (accepted socket total) = accepted socket (ms + total)
slept ms (gave_up total) = gave_up (ms + total)
slept ms waiting = waiting

-- `backoff <<= 1` on a `u64`
abbrev pub doubled : ℕ → ℕ
doubled b = b * 2 % 2 ^ 64

-- The loop of `accept`.
unfoldable pub accept_loop : ℕ → List Attempt → ℕ → Accepted
accept_loop max [] backoff = waiting
accept_loop max (connection socket ∷ rest) backoff = accepted socket 0
accept_loop max (failure ∷ rest) backoff =
    let again = accept_loop max rest (doubled backoff) in
    if ltb max backoff then gave_up 0 else slept backoff again

unfoldable pub accept : Config → List Attempt → Accepted
unfolding accept_loop
accept conf attempts = accept_loop conf.max_backoff_ms attempts conf.min_backoff_ms

-- `Shutdown`; the channel is closed when its sender is dropped, and only then does `recv` return.
pub record Shutdown : Type 0 where
  pub shutdown : Bool

abbrev pub new_shutdown : Shutdown
new_shutdown = record { shutdown = false }

unfoldable pub recv : Bool → Shutdown → Option Shutdown
recv closed s =
    if s.shutdown then some s else if closed then some (record { shutdown = true }) else none

pub record Handler : Type 0 where
  pub socket : ℕ
  pub shutdown : Shutdown

-- Where `Server::run` stands: in `listen` without a permit or with one, behind the `select!` or at its end.
pub data Phase : Type 0 where
  acquiring accepting draining ended : Phase

pub record Server : Type 0 where
  pub permits : ℕ
  pub phase : Phase
  pub handlers : List Handler

abbrev pub new_server : Config → Server
new_server conf = record { permits = conf.max_connections; phase = acquiring; handlers = [] }

-- A permit is taken, the whole `accept` with what its attempts give, the signal for a shutdown, a handler
-- that hears of it, the end of a handler, and the end of the server.
pub data Event : Type 0 where
  acquires : Event
  accepts : List Attempt → Event
  shuts_down : Event
  hears : ℕ → Event
  ends : ℕ → Event
  quits : Event

-- The sender of the shutdown channel is dropped behind the `select!`.
abbrev pub channel_closed : Phase → Bool
channel_closed acquiring = false
channel_closed accepting = false
channel_closed draining = true
channel_closed ended = true

abbrev pub with_told : Handler → List Handler → Option Shutdown → Option (List Handler)
with_told h rest none = none
with_told h rest (some s) = some (record h { shutdown = s } ∷ rest)

abbrev pub behind : Handler → Option (List Handler) → Option (List Handler)
behind h none = none
behind h (some rest) = some (h ∷ rest)

-- The handler at this place hears of the shutdown, or is gone.
unfoldable pub tell : Bool → ℕ → List Handler → Option (List Handler)
unfolding recv
tell closed i [] = none
tell closed zero (h ∷ rest) = with_told h rest (recv closed h.shutdown)
tell closed (suc i) (h ∷ rest) = behind h (tell closed i rest)

unfoldable pub remove : ℕ → List Handler → Option (List Handler)
remove i [] = none
remove zero (h ∷ rest) = some rest
remove (suc i) (h ∷ rest) = behind h (remove i rest)

abbrev pub acquire : ℕ → Server → Option Server
acquire zero s = none
acquire (suc permits) s = some (record s { permits = permits; phase = accepting })

-- A socket gets a handler; an error ends `listen`.
abbrev pub spawn : Accepted → Server → Option Server
spawn (accepted socket _) s = some (record s {
  phase = acquiring;
  handlers = record { socket = socket; shutdown = new_shutdown } ∷ s.handlers;
})
spawn (gave_up _) s = some (record s { phase = draining })
spawn waiting s = none

abbrev pub with_handlers : Server → ℕ → Option (List Handler) → Option Server
with_handlers s permits none = none
with_handlers s permits (some handlers) = some (record s { permits = permits; handlers = handlers })

abbrev pub quit : List Handler → Server → Option Server
quit [] s = some (record s { phase = ended })
quit (_ ∷ _) s = none

-- `Listener::listen` up to the next permit or the next connection, and the `select!` of `run`.
abbrev pub listen : Config → Event → Phase → Server → Option Server
listen conf acquires acquiring s = acquire s.permits s
listen conf (accepts attempts) accepting s = spawn (accept conf attempts) s
listen conf shuts_down acquiring s = some (record s { phase = draining })
listen conf shuts_down accepting s = some (record s { phase = draining })
listen conf quits draining s = quit s.handlers s
listen conf _ _ s = none

-- One step; `none` when the event cannot happen. A handler that ends gives its permit back.
unfoldable pub step : Config → Event → Server → Option Server
unfolding tell remove
step conf (hears i) s = with_handlers s s.permits (tell (channel_closed s.phase) i s.handlers)
step conf (ends i) s = with_handlers s (s.permits + 1) (remove i s.handlers)
step conf acquires s = listen conf acquires s.phase s
step conf (accepts attempts) s = listen conf (accepts attempts) s.phase s
step conf shuts_down s = listen conf shuts_down s.phase s
step conf quits s = listen conf quits s.phase s

pub data Reach (conf : Config) (s : Server) : Server → Type 0 where
  here : Reach conf s s
  next : {t u : Server} → Reach conf s t → (e : Event) → step conf e t ≡ some u → Reach conf s u
