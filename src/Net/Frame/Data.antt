-- ===== src/Net/Frame/Data.antt =====
-- net/frame.rs: the frames of the protocol, and errors.
use opal.Env.{Bytes}
use opal.Prelude.Int.{ℤ}

-- enum Error; a string is given by its bytes, and `not_integer` carries the bytes that the code
-- hands to `String::from_utf8_lossy`.
pub data Error : Type 0 where
  incomplete bad_encoding : Error
  not_integer : Bytes → Error
  not_utf8 : Bytes → Error

-- enum Frame, with the vector of an array as a type of its own; strings are their UTF-8 bytes.
mutual
  pub data Frame : Type 0 where
    simple_string : Bytes → Frame
    error : Bytes → Frame
    integer : ℤ → Frame
    bulk_string : Bytes → Frame
    array : Frames → Frame
    null : Frame

  pub data Frames : Type 0 where
    nil : Frames
    cons : Frame → Frames → Frames
