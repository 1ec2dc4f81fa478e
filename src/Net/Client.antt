-- ===== src/Net/Client.antt =====
-- net/client.rs: a request is the bytes that are sent and what is made of the next frame.
pub mod Understands
mod Tests
use opal.Prelude.{ℕ, Option, none, some, List, [], if◌then◌else◌}
use opal.Prelude.Int.{ℤ}
use opal.Env.{Env, Bytes}
use opal.Net.Frame.Data.{Frame, integer, bulk_string, simple_string, null, error}
use opal.Net.Connection.Write.{Written, sent, io_error, panic, write_frame}
use opal.Net.Connection.Read.{
  Arrival, Received, received, closed, reset, io_error as read_failed, frame_error, panicked,
  out_of_fuel, read_frame,
}
use opal.Net.Command.{bad_frame, bytes_eq, del_frame, get_frame, set_frame}
use opal.Net.Server.{Error, storage, frame, command, io, okay}

-- What a method returns, with the buffer and the stream behind it. The error that the server sends is
-- its text.
pub data Response (A : Type 0) : Type 0 where
  ok : A → Bytes → List Arrival → Response A
  err : Error Bytes → Response A
  panics stuck : Response A

infixl 5 ◌>>=◌
abbrev pub ◌>>=◌ :
    {A B : Type 0} → Response A → (A → Bytes → List Arrival → Response B) → Response B
ok a buffer stream >>= f = f a buffer stream
err x >>= f = err x
panics >>= f = panics
stuck >>= f = stuck

-- `Client::read_response` on what `read_frame` returned.
abbrev pub response_of : Received → Response Frame
response_of (received (error message) left stream) = err (storage message)
response_of (received f left stream) = ok f left stream
response_of closed = err io
response_of reset = err io
response_of read_failed = err io
response_of (frame_error x) = err (frame x)
response_of panicked = panics
response_of out_of_fuel = stuck

abbrev pub as_integer : Frame → Bytes → List Arrival → Response ℤ
as_integer (integer n) left stream = ok n left stream
as_integer f left stream = err (command (bad_frame f))

abbrev pub as_value : Frame → Bytes → List Arrival → Response (Option Bytes)
as_value (bulk_string s) left stream = ok (some s) left stream
as_value null left stream = ok none left stream
as_value f left stream = err (command (bad_frame f))

abbrev pub as_okay : Frame → Bytes → List Arrival → Response (Unit {0})
as_okay (simple_string s) left stream =
    if bytes_eq s okay then ok tt left stream else err (command (bad_frame (simple_string s)))
as_okay f left stream = err (command (bad_frame f))

-- The request goes out before the response is read.
abbrev pub after_writing : {A : Type 0} → Written → Response A → Bytes × Response A
after_writing (sent bs) r = (bs, r)
after_writing io_error r = ([], err io)
after_writing panic r = ([], panics)

module _ ⦃e : Env⦄ where
  unfoldable pub read_response : Bytes → List Arrival → Response Frame
  read_response buffer stream = response_of (read_frame buffer stream)

  unfoldable pub del : List Bytes → Bytes → List Arrival → Bytes × Response ℤ
  unfolding read_response
  del keys buffer stream =
      after_writing (write_frame (del_frame keys)) (read_response buffer stream >>= as_integer)

  unfoldable pub get : Bytes → Bytes → List Arrival → Bytes × Response (Option Bytes)
  unfolding read_response
  get key buffer stream =
      after_writing (write_frame (get_frame key)) (read_response buffer stream >>= as_value)

  unfoldable pub set : Bytes → Bytes → Bytes → List Arrival → Bytes × Response (Unit {0})
  unfolding read_response
  set key value buffer stream =
      after_writing (write_frame (set_frame key value)) (read_response buffer stream >>= as_okay)
