-- ===== src/Net/Server.antt =====
-- net/server.rs and the `apply` of each command: the handler of one connection over a storage.
-- The shutdown signal wins the `select!` of some round, which is the number of rounds that `run` is
-- given; the socket takes every byte that is sent.
pub mod Serves
mod Tests
use opal.Prelude.{ℕ, zero, suc, ◌+◌, Bool, Option, none, some, List, [], ◌∷◌, ◌++◌, if◌then◌else◌}
use opal.Prelude.Int.{pos}
use opal.Env.{Env, Bytes}
use opal.Net.Frame.Data.{Frame, Error as FrameError, integer, bulk_string, simple_string, null}
use opal.Net.Connection.Write.{Written, sent, io_error, panic, write_frame}
use opal.Net.Connection.Read.{
  Arrival, read_frame, received, closed, reset, io_error as read_failed, frame_error, panicked,
  out_of_fuel,
}
use opal.Net.Command.{
  Command, Error as CommandError, del, get, set, Result, ok as parsed, err as refused, try_from,
}

-- What a call of the storage does: it returns, panics, or never returns.
pub data Answer (S F A : Type 0) : Type 0 where
  ok : A → S → Answer S F A
  err : F → S → Answer S F A
  panics : S → Answer S F A
  hangs : S → Answer S F A

-- trait KeyValueStorage
pub record KeyValueStorage : Type 1 where
  pub State : Type 0
  pub Failure : Type 0
  pub set_key : Bytes → Bytes → State → Answer State Failure (Unit {0})
  pub get_key : Bytes → State → Answer State Failure (Option Bytes)
  pub del_key : Bytes → State → Answer State Failure Bool

-- net::Error
pub data Error (F : Type 0) : Type 0 where
  storage : F → Error F
  frame : FrameError → Error F
  command : CommandError → Error F
  io : Error F
  async_task : Error F

-- How the handler ends: `Ok(())`, an error, a panic, or never.
pub data Ended (F : Type 0) : Type 0 where
  finished : Ended F
  failed : Error F → Ended F
  aborted : Ended F
  stuck : Ended F

infixl 5 ◌>>=◌
abbrev pub ◌>>=◌ : {S F A B : Type 0} → Answer S F A → (A → S → Answer S F B) → Answer S F B
ok a s >>= f = f a s
err e s >>= f = err e s
panics s >>= f = panics s
hangs s >>= f = hangs s

abbrev pub found : Option Bytes → Frame
found (some value) = bulk_string value
found none = null

abbrev pub okay : Bytes
okay = b'O' ∷ b'K' ∷ []

module _ (kv : KeyValueStorage) where
  abbrev pub Reply : Type 0
  Reply = Answer kv.State (Error kv.Failure) Frame

  -- `spawn_blocking(..).await?.map_err(..)?`, and the response from what the storage returned.
  abbrev pub respond : {A : Type 0} → (A → Frame) → Answer kv.State kv.Failure A → Reply
  respond f (ok a s) = ok (f a) s
  respond f (err e s) = err (storage e) s
  respond f (panics s) = err async_task s
  respond f (hangs s) = hangs s

  -- The loop of `Del::apply`.
  unfoldable pub del_keys : List Bytes → ℕ → kv.State → Answer kv.State kv.Failure ℕ
  del_keys [] count s = ok count s
  del_keys (key ∷ keys) count s =
      kv.del_key key s >>= λ there t. del_keys keys (if there then count + 1 else count) t

  -- The responses of the three commands' `apply`, which are then written.
  abbrev pub apply_del : List Bytes → kv.State → Reply
  apply_del keys s = respond (λ n. integer (pos n)) (del_keys keys 0 s)

  abbrev pub apply_get : Bytes → kv.State → Reply
  apply_get key s = respond found (kv.get_key key s)

  abbrev pub apply_set : Bytes → Bytes → kv.State → Reply
  apply_set key value s = respond (λ _. simple_string okay) (kv.set_key key value s)

  unfoldable pub apply : Command → kv.State → Reply
  unfolding del_keys
  apply (del keys) s = apply_del keys s
  apply (get key) s = apply_get key s
  apply (set key value) s = apply_set key value s

  -- The storage and the bytes that were sent when the handler ends.
  pub record Served : Type 0 where
    pub state : kv.State
    pub output : Bytes
    pub ended : Ended kv.Failure

  abbrev pub ends : kv.State → Ended kv.Failure → Served
  ends s e = record { state = s; output = []; ended = e }

  abbrev pub after_sending : Bytes → Served → Served
  after_sending bs r = record r { output = bs ++ r.output }

  -- The response is written and the loop goes on.
  abbrev pub written : Written → kv.State → (kv.State → Served) → Served
  written (sent bs) s next = after_sending bs (next s)
  written io_error s next = ends s (failed io)
  written panic s next = ends s aborted

  abbrev pub replied : Reply → (kv.State → Served) → Served
  replied (ok f s) next = written (write_frame f) s next
  replied (err e s) next = ends s (failed e)
  replied (panics s) next = ends s aborted
  replied (hangs s) next = ends s stuck

  abbrev pub accepted : Result Command → kv.State → (kv.State → Served) → Served
  accepted (parsed c) s next = replied (apply c s) next
  accepted (refused e) s next = ends s (failed (command e))

  -- `Handler::run`
  unfoldable pub run : ⦃e : Env⦄ → ℕ → kv.State → Bytes → List Arrival → Served
  run zero s buffer stream = ends s finished
  run (suc n) s buffer stream = elim (read_frame buffer stream) [
    | received f left later ↦ accepted (try_from f) s (λ t. run n t left later)
    | closed ↦ ends s finished
    | reset ↦ ends s (failed io)
    | read_failed ↦ ends s (failed io)
    | frame_error x ↦ ends s (failed (frame x))
    | panicked ↦ ends s aborted
    | out_of_fuel ↦ ends s stuck
  ]
