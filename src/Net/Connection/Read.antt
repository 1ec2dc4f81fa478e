-- ===== src/Net/Connection/Read.antt =====
-- net/connection.rs: `parse_frame` and `read_frame`. The stream is what its next reads will give.
pub mod Whole
pub mod Pieces
use opal.Prelude.{ℕ, zero, suc, Option, none, some, List, [], ◌∷◌, ◌++◌, length}
use opal.Env.{Env, Bytes, Cursor}
use opal.Net.Frame.Data.{Frame, Error, incomplete}
use opal.Net.Frame.Reader.{Outcome, ok, err, panic, no_fuel}
use opal.Net.Frame.Parse.{check, parse}

-- `Ok(Some)` with what is left of the buffer, `Ok(None)`, `Err`, or a panic.
pub data Parsed : Type 0 where
  frame : Frame → Bytes → Parsed
  not_enough : Parsed
  failed : Error → Parsed
  panicked out_of_fuel : Parsed

-- One `read_buf`: some bytes, none at the end of the stream, or an I/O error.
pub data Arrival : Type 0 where
  chunk : Bytes → Arrival
  broken : Arrival

-- `Ok(Some)` with the buffer and the stream that it leaves, `Ok(None)`, or an error.
pub data Received : Type 0 where
  received : Frame → Bytes → List Arrival → Received
  closed reset io_error : Received
  frame_error : Error → Received
  panicked out_of_fuel : Received

-- Nested arrays are no deeper than the bytes in the buffer.
abbrev pub fuel_for : Bytes → ℕ
fuel_for buffer = suc (suc (length buffer))

abbrev pub start_of : Bytes → Cursor
start_of buffer = record { bytes = buffer; position = 0 }

abbrev pub discarded : Frame → Option Bytes → Parsed
discarded f none = panicked
discarded f (some buffer) = frame f buffer

abbrev pub at_end : Bytes → Received
at_end [] = closed
at_end (_ ∷ _) = reset

-- One round of the loop: `retry` is what follows when the buffer holds no whole frame.
abbrev pub resume : Parsed → List Arrival → Received → Received
resume (frame f left) stream retry = received f left stream
resume not_enough stream retry = retry
resume (failed x) stream retry = frame_error x
resume panicked stream retry = panicked
resume out_of_fuel stream retry = out_of_fuel

module _ ⦃e : Env⦄ where
  -- The check passed and ended at `len`.
  unfoldable pub parse_checked : Bytes → ℕ → Parsed
  parse_checked buffer len = elim (parse (fuel_for buffer) (start_of buffer)) [
    | ok f _ ↦ discarded f (e.advance_bytes buffer len)
    | err x ↦ failed x
    | panic ↦ panicked
    | no_fuel ↦ out_of_fuel
  ]

  unfoldable pub parse_frame : Bytes → Parsed
  unfolding parse_checked
  parse_frame buffer = elim (check (fuel_for buffer) (start_of buffer)) [
    | ok _ c ↦ parse_checked buffer c.position
    | err incomplete ↦ not_enough
    | err x ↦ failed x
    | panic ↦ panicked
    | no_fuel ↦ out_of_fuel
  ]

  unfoldable pub read_frame : Bytes → List Arrival → Received
  read_frame buffer [] = resume (parse_frame buffer) [] (at_end buffer)
  read_frame buffer (broken ∷ later) = resume (parse_frame buffer) (broken ∷ later) io_error
  read_frame buffer (chunk [] ∷ later) =
      resume (parse_frame buffer) (chunk [] ∷ later) (at_end buffer)
  read_frame buffer (chunk (b ∷ bs) ∷ later) =
      let more = read_frame (buffer ++ b ∷ bs) later in
      resume (parse_frame buffer) (chunk (b ∷ bs) ∷ later) more
