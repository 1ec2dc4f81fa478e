-- ===== src/Net/Trip.antt =====
-- A command from the client to the server: client.rs writes its frame, server.rs reads a frame and
-- turns it into a command.
use opal.Prelude.{◌≡◌, refl, ◌++◌, List, [], ◌∷◌}
use opal.Env.{Env, Bytes, IsDocumented}
use opal.Net.Frame.Data.{Frame}
use opal.Net.Connection.Write.{sent, write_frame}
use opal.Net.Connection.RoundTrip.{IsWritable}
use opal.Net.Connection.RoundTrip.Whole.{encoding, write_frame-encoding}
use opal.Net.Connection.Read.{frame, parse_frame, Arrival, chunk, broken, received, read_frame}
use opal.Net.Connection.Read.Whole.{parse_frame-write_frame}
use opal.Net.Command.{Command, ok, try_from, to_frame}
use opal.Net.Command.Frames.{IsProper, try_from-eq-ok_iff}

pub read_frame-parsed :
    ⦃e : Env⦄ (stream : List Arrival) (buffer left : Bytes) (f : Frame)
    → parse_frame buffer ≡ frame f left
    → read_frame buffer stream ≡ received f left stream
unfolding read_frame
read_frame-parsed [] buffer left f h = rw h refl
read_frame-parsed (broken ∷ later) buffer left f h = rw h refl
read_frame-parsed (chunk [] ∷ later) buffer left f h = rw h refl
read_frame-parsed (chunk (b ∷ bs) ∷ later) buffer left f h = rw h refl

-- A proper command whose frame can be written is sent as bytes from which the other side, once they
-- are in its buffer, reads that frame and gets the command back; what follows them stays in the buffer
-- and the stream.
pub try_from-read_frame :
    ⦃e : Env⦄ (laws : IsDocumented e) (c : Command) (r : Bytes) (stream : List Arrival)
    → IsProper c
    → IsWritable (to_frame c)
    → (bs : Bytes) × (write_frame (to_frame c) ≡ sent bs)
      × (read_frame (bs ++ r) stream ≡ received (to_frame c) r stream)
      × (try_from (to_frame c) ≡ ok c)
try_from-read_frame laws c r stream h w =
    let p = write_frame-encoding (to_frame c) w in
    let q = parse_frame-write_frame laws (to_frame c) (encoding (to_frame c)) r w p in
    (
      encoding (to_frame c),
      p,
      read_frame-parsed stream (encoding (to_frame c) ++ r) r (to_frame c) q,
      (try_from-eq-ok_iff (to_frame c) c).1 (refl, h),
    )
