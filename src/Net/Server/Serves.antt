-- ===== src/Net/Server/Serves.antt =====
-- A handler with whole requests in its buffer answers them in order.
use opal.Prelude.{
  ℕ, zero, suc, ◌+◌, ◌-◌, ◌<◌, ◌≤◌, ◌≡◌, ap, sym, ◌∙◌, append-nil, append_assoc, refl, Bool, List,
  [], ◌∷◌, ◌++◌, length, arith,
}
use opal.Env.{Env, Bytes, IsDocumented, documented, for_documented}
use opal.Net.Frame.Data.{Frame}
use opal.Net.Frame.Reader.{get_byte}
use opal.Net.Frame.Parse.{check}
use opal.Net.Connection.RoundTrip.{IsWritable}
use opal.Net.Connection.RoundTrip.Whole.{encoding, write_frame-encoding}
use opal.Net.Connection.Read.{Arrival, received, closed, read_frame, parse_frame}
use opal.Net.Connection.Read.Whole.{parse_frame-write_frame}
use opal.Net.Command.{
  Command, Result, ok as parsed, err as refused, try_from, to_frame, Error as CommandError,
}
use opal.Net.Command.Frames.{IsProper, try_from-eq-ok_iff}
use opal.Net.Trip.{read_frame-parsed}
use opal.Net.Server.{KeyValueStorage, ok, apply, run, finished, failed, command}

-- A command that a client can send, and a response that can be written.
abbrev pub IsExchange : Command × Frame → Type 0
IsExchange (c, f) = IsProper c × IsWritable (to_frame c) × IsWritable f

abbrev pub AllExchanges : List (Command × Frame) → Type 0
AllExchanges [] = Unit
AllExchanges (p ∷ ps) = IsExchange p × AllExchanges ps

-- The bytes of the requests and those of the responses.
abbrev pub requests : List (Command × Frame) → Bytes
requests [] = []
requests ((c, f) ∷ ps) = encoding (to_frame c) ++ requests ps

abbrev pub responses : List (Command × Frame) → Bytes
responses [] = []
responses ((c, f) ∷ ps) = encoding f ++ responses ps

-- Applied one after the other from the first state, the commands have these responses and end in the
-- second state.
abbrev pub Answers : (kv : KeyValueStorage) → List (Command × Frame) → kv.State → kv.State → Type 0
Answers kv [] s t = s ≡ t
Answers kv ((c, f) ∷ ps) s t = (u : kv.State) × (apply kv c s ≡ ok f u) × Answers kv ps u t

read_frame-empty : (k : Bool) → read_frame ⦃e = documented k⦄ [] [] ≡ closed
unfolding read_frame parse_frame check get_byte
read_frame-empty k = refl

module _ (kv : KeyValueStorage) ⦃e : Env⦄ (laws : IsDocumented e) where
  read_frame-encoding :
      (f : Frame) (r : Bytes) (stream : List Arrival)
      → IsWritable f
      → read_frame (encoding f ++ r) stream ≡ received f r stream
  read_frame-encoding f r stream h =
      read_frame-parsed stream (encoding f ++ r) r f
        (parse_frame-write_frame laws f (encoding f) r h (write_frame-encoding f h))

  -- A handler whose buffer holds whole requests, which the storage answers one after the other with
  -- responses that can be written, sends exactly these responses in order, leaves the storage in the
  -- state behind the last one, and ends without an error when the client has closed the connection, or
  -- when the shutdown comes, if that is not before the last request.
  pub run-Answers :
      (ps : List (Command × Frame)) (n : ℕ) (s t : kv.State)
      → length ps ≤ n
      → AllExchanges ps
      → Answers kv ps s t
      → run kv n s (requests ps) [] ≡ record { state = t; output = responses ps; ended = finished }
  unfolding run
  run-Answers [] zero s t h x a = rw a refl
  run-Answers [] (suc n) s t h x a =
      let q = for_documented (λ e. read_frame ⦃e = e⦄ [] [] ≡ closed) read_frame-empty laws in
      rw (q, run) (rw a refl)
  run-Answers ((c, f) ∷ ps) zero s t h x a = absurd (omega arith)
  run-Answers ((c, f) ∷ ps) (suc n) s t h x a =
      let ((proper, sendable, writable), rest) = x in
      let (u, eq, later) = a in
      let p = read_frame-encoding (to_frame c) (requests ps) [] sendable in
      let q = (try_from-eq-ok_iff (to_frame c) c).1 (refl, proper) in
      let w = write_frame-encoding f writable in
      let ih = run-Answers ps n u t (omega arith) rest later in
      rw (p, run) (rw q (rw eq (rw w (rw ih refl))))

  -- The first rounds of the loop, for whole requests that are answered.
  run-append :
      (ps : List (Command × Frame)) (n : ℕ) (s t : kv.State) (r : Bytes) (stream : List Arrival)
      → AllExchanges ps
      → Answers kv ps s t
      → run kv (length ps + n) s (requests ps ++ r) stream ≡ (
          let u = run kv n t r stream in
          record { state = u.state; output = responses ps ++ u.output; ended = u.ended })
  unfolding run
  run-append [] n s t r stream x a = let z : 0 + n ≡ n = omega arith in rw (a, z) refl
  run-append ((c, f) ∷ ps) n s t r stream x a =
      let ((proper, sendable, writable), rest) = x in
      let (u, eq, later) = a in
      let z : suc (length ps) + n ≡ suc (length ps + n) = omega arith in
      let p = read_frame-encoding (to_frame c) (requests ps ++ r) stream sendable in
      let q = (try_from-eq-ok_iff (to_frame c) c).1 (refl, proper) in
      let w = write_frame-encoding f writable in
      let ih = run-append ps n u t r stream rest later in
      rw (z, append_assoc (encoding (to_frame c)) (requests ps) r)
        (rw (p, run) (rw q (rw eq (rw w (rw (ih, append_assoc (encoding f) (responses ps)) refl)))))

  try_from-refused :
      (f : Frame)
      → ((c : Command) → f ≡ to_frame c → IsProper c → ⊥)
      → (x : CommandError) × (try_from f ≡ refused x)
  try_from-refused f h = by_result (try_from f) refl
    where
      by_result : (o : Result Command) → try_from f ≡ o → (x : CommandError) × (o ≡ refused x)
      by_result (parsed c) e =
          absurd (let (same, proper) = (try_from-eq-ok_iff f c).0 e in h c same proper)
      by_result (refused x) e = (x, refl)

  -- A handler whose buffer holds whole requests, and behind them a whole frame that no command is sent as,
  -- sends exactly the responses of the storage to the requests, in order, and then ends with an error of
  -- the command parser: it leaves the storage in the state behind the last request, and neither sends
  -- anything for the frame nor looks at what follows it.
  pub run-AllExchanges :
      (ps : List (Command × Frame)) (f : Frame) (r : Bytes) (stream : List Arrival) (n : ℕ)
      (s t : kv.State)
      → length ps < n
      → AllExchanges ps
      → Answers kv ps s t
      → IsWritable f
      → ((c : Command) → f ≡ to_frame c → IsProper c → ⊥)
      → (x : CommandError) × (run kv n s (requests ps ++ (encoding f ++ r)) stream
          ≡ record { state = t; output = responses ps; ended = failed (command x) })
  unfolding run
  run-AllExchanges ps f r stream n s t l x a w h =
      let (e, q) = try_from-refused f h in
      let last : run kv (suc (n - length ps - 1)) t (encoding f ++ r) stream
          ≡ record { state = t; output = []; ended = failed (command e) } =
        rw (read_frame-encoding f r stream w, run) (rw q refl) in
      let fuel : length ps + suc (n - length ps - 1) ≡ n = omega (arith, l) in
      (
        e,
        ap (λ m. run kv m s (requests ps ++ (encoding f ++ r)) stream) (sym fuel)
            ∙ run-append ps (suc (n - length ps - 1)) s t (encoding f ++ r) stream x a
            ∙ rw last (rw append-nil refl),
      )
