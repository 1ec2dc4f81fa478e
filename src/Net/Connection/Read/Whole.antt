-- ===== src/Net/Connection/Read/Whole.antt =====
-- Reading a frame that has arrived whole, and that the reading of frames needs no more fuel.
use opal.Prelude.{
  ◌≡◌, ◌≢◌, refl, Bool, List, [], ◌∷◌, ◌++◌, length, length-append, drop-length, arith, subst,
}
use opal.Env.{Env, Bytes, Cursor, documented, documented-IsDocumented, IsDocumented, for_documented}
use opal.Net.Frame.Data.{Frame}
use opal.Net.Frame.Reader.{Outcome, ok, err, panic, no_fuel}
use opal.Net.Frame.Parse.{check}
use opal.Net.Frame.Fuel.{check_fuel, parse_fuel}
use opal.Net.Frame.Agree.{Agrees, check-Agrees-parse}
use opal.Net.Connection.RoundTrip.{IsWritable}
use opal.Net.Connection.Write.{sent, write_frame}
use opal.Net.Connection.RoundTrip.Whole.{encoding, write_frame-encoding, parse-Reads}
use opal.Net.Connection.Read.{
  Parsed, frame, not_enough, failed, panicked, out_of_fuel, Arrival, chunk, broken, Received,
  resume, fuel_for, start_of, parse_checked, parse_frame, read_frame,
}

pub Agrees-ok : (o : Outcome (Unit {0})) (f : Frame) (d : Cursor) → Agrees o (ok f d) → o ≡ ok tt d
Agrees-ok (ok tt c) f d h = rw h
Agrees-ok (err x) f d h = absurd h
Agrees-ok panic f d h = absurd h
Agrees-ok no_fuel f d h = absurd h

resume_lem :
    (p : Parsed) (stream : List Arrival) (retry : Received)
    → p ≢ out_of_fuel
    → retry ≢ out_of_fuel
    → resume p stream retry ≢ out_of_fuel
resume_lem (frame f left) stream retry h k = ground arith
resume_lem not_enough stream retry h k = k
resume_lem (failed x) stream retry h k = ground arith
resume_lem panicked stream retry h k = ground arith
resume_lem out_of_fuel stream retry h k = absurd (h refl)

module _ (k : Bool) where
  instance abbrev here : Env
  here = documented k

  pub parse_frame-encoding :
      (f : Frame) (r : Bytes) → IsWritable f → parse_frame (encoding f ++ r) ≡ frame f r
  unfolding parse_frame
  parse_frame-encoding f r h =
      let bs = encoding f ++ r in
      let p = (parse-Reads k (length bs) f h).at (start_of bs) r refl in
      let a =
        subst (Agrees (check (fuel_for bs) (start_of bs))) p
          (check-Agrees-parse (documented-IsDocumented k) (fuel_for bs) (start_of bs)) in
      let c = Agrees-ok _ f _ a in
      rw (c, parse_frame)
        (rw (p, parse_checked)
          (ground (arith, drop-length (encoding f) r, length-append (encoding f) r)))

  parse_frame-ne-out_of_fuel : (bs : Bytes) → parse_frame bs ≢ out_of_fuel
  unfolding parse_frame
  parse_frame-ne-out_of_fuel bs =
      ground
        (arith, check_fuel k (fuel_for bs) (start_of bs), parse_fuel k (fuel_for bs) (start_of bs))

  read_frame-ne-out_of_fuel :
      (stream : List Arrival) (bs : Bytes) → read_frame bs stream ≢ out_of_fuel
  unfolding read_frame
  read_frame-ne-out_of_fuel [] bs =
      resume_lem (parse_frame bs) _ _ (parse_frame-ne-out_of_fuel bs) (ground arith)
  read_frame-ne-out_of_fuel (broken ∷ later) bs =
      resume_lem (parse_frame bs) _ _ (parse_frame-ne-out_of_fuel bs) (ground arith)
  read_frame-ne-out_of_fuel (chunk [] ∷ later) bs =
      resume_lem (parse_frame bs) _ _ (parse_frame-ne-out_of_fuel bs) (ground arith)
  read_frame-ne-out_of_fuel (chunk (b ∷ new) ∷ later) bs =
      resume_lem (parse_frame bs) _ _ (parse_frame-ne-out_of_fuel bs)
        (read_frame-ne-out_of_fuel later (bs ++ b ∷ new))

-- On every stream of arrivals that ends, from every buffer, `read_frame` does not run out of the fuel of
-- the model: it ends with a frame, at the end of the stream, or with an error or a panic.
pub read_frame_ends :
    ⦃e : Env⦄ (laws : IsDocumented e) (stream : List Arrival) (buffer : Bytes)
    → read_frame buffer stream ≢ out_of_fuel
read_frame_ends ⦃e⦄ laws stream buffer =
    for_documented (λ e. read_frame ⦃e = e⦄ buffer stream ≢ out_of_fuel)
      (λ k. read_frame-ne-out_of_fuel k stream buffer) laws

-- What `write_frame` sends for a frame that can be written is parsed back as that frame, whatever bytes
-- follow, and those stay in the buffer.
pub parse_frame-write_frame :
    ⦃e : Env⦄ (laws : IsDocumented e) (f : Frame) (bs r : Bytes)
    → IsWritable f
    → write_frame f ≡ sent bs
    → parse_frame (bs ++ r) ≡ frame f r
parse_frame-write_frame ⦃e⦄ laws f bs r h w =
    let same : encoding f ≡ bs = cc (write_frame-encoding f h, w) in
    for_documented (λ e. parse_frame ⦃e = e⦄ (bs ++ r) ≡ frame f r)
      (λ k.
        subst (λ z. parse_frame ⦃e = documented k⦄ (z ++ r) ≡ frame f r) same
          (parse_frame-encoding k f r h))
      laws
