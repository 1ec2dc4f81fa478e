-- ===== src/Net/Client/Understands.antt =====
-- The client sends what the server parses and takes the server's responses for what they mean.
use opal.Prelude.{ℕ, ◌≡◌, refl, Option, none, some, List, ◌++◌}
use opal.Prelude.Int.{pos}
use opal.Env.{Env, Bytes, IsDocumented}
use opal.Net.Frame.Data.{Frame, integer, simple_string}
use opal.Net.Connection.RoundTrip.{IsWritable}
use opal.Net.Connection.RoundTrip.Whole.{encoding, write_frame-encoding}
use opal.Net.Connection.Read.{Arrival, received, read_frame}
use opal.Net.Connection.Read.Whole.{parse_frame-write_frame}
use opal.Net.Command.{del_frame, get_frame, set_frame}
use opal.Net.Trip.{read_frame-parsed}
use opal.Net.Server.{found, okay}
use opal.Net.Client.{ok, del, get, set, read_response}

module _ ⦃e : Env⦄ (laws : IsDocumented e) (left : Bytes) (stream : List Arrival) where
  read_frame-encoding :
      (f : Frame) → IsWritable f → read_frame (encoding f ++ left) stream ≡ received f left stream
  read_frame-encoding f h =
      read_frame-parsed stream (encoding f ++ left) left f
        (parse_frame-write_frame laws f (encoding f) left h (write_frame-encoding f h))

  -- With the server's response to a GET whole at the start of the buffer, `Client::get` sends its
  -- request in the protocol's encoding and returns the value, or none, that the response was made
  -- of; what follows the response stays. The frames of both fit the lengths of the protocol.
  pub get-found :
      (key : Bytes) (o : Option Bytes)
      → IsWritable (get_frame key)
      → IsWritable (found o)
      → get key (encoding (found o) ++ left) stream ≡ (encoding (get_frame key), ok o left stream)
  unfolding get
  get-found key none h k =
      rw (write_frame-encoding (get_frame key) h)
        (rw (read_frame-encoding (found none) k, read_response) refl)
  get-found key (some v) h k =
      rw (write_frame-encoding (get_frame key) h)
        (rw (read_frame-encoding (found (some v)) k, read_response) refl)

  -- With the server's response to a SET, or to a DEL that counted `n` keys, whole at the start of the
  -- buffer, `Client::set` and `Client::del` send their requests in the protocol's encoding and return
  -- success and the count; what follows the response stays. The frames can be written.
  pub set-del-returns :
      (key value : Bytes) (keys : List Bytes) (n : ℕ)
      → IsWritable (set_frame key value)
      → IsWritable (del_frame keys)
      → IsWritable (simple_string okay)
      → IsWritable (integer (pos n))
      → (set key value (encoding (simple_string okay) ++ left) stream
          ≡ (encoding (set_frame key value), ok tt left stream))
        × (del keys (encoding (integer (pos n)) ++ left) stream
            ≡ (encoding (del_frame keys), ok (pos n) left stream))
  unfolding set del
  set-del-returns key value keys n h g k l = (
    rw (write_frame-encoding (set_frame key value) h)
        (rw (read_frame-encoding (simple_string okay) k, read_response) refl),
    rw (write_frame-encoding (del_frame keys) g)
        (rw (read_frame-encoding (integer (pos n)) l, read_response) refl),
  )
