-- ===== src/Net/Connection/Write.antt =====
-- net/connection.rs: `write_frame`, as the bytes that it hands to the stream in order. That the
-- stream takes them is `tokio`'s part, and so is the final flush.
use opal.Prelude.{ℕ, suc, [], ◌∷◌, ◌++◌, length, leb, if◌then◌else◌}
use opal.Prelude.Int.{ℤ, pos}
use opal.Env.{Bytes}
use opal.Net.Frame.Data.{
  Frame, Frames, simple_string, error, integer, bulk_string, array, null, nil, cons,
}
use opal.Net.Frame.Decimal.{decimal}
use opal.Net.Frame.I64.{wrap_i64}

-- `io_error` is the `WriteZero` of a full buffer, `panic` the `unimplemented!()`.
pub data Written : Type 0 where
  sent : Bytes → Written
  io_error panic : Written

infixl 5 ◌>>◌
abbrev pub ◌>>◌ : Written → Written → Written
sent a >> sent b = sent (a ++ b)
sent a >> io_error = io_error
sent a >> panic = panic
io_error >> n = io_error
panic >> n = panic

abbrev pub line_end : Bytes
line_end = 13 ∷ 10 ∷ []

-- The buffer holds 20 bytes.
unfoldable pub write_decimal : ℤ → Written
write_decimal value = let ds = decimal value in if leb (length ds) 20 then sent ds else io_error

-- `len as i64`
abbrev pub as_i64 : ℕ → ℤ
as_i64 n = wrap_i64 (pos n)

unfoldable pub write_single_value : Frame → Written
write_single_value (simple_string s) = sent (b'+' ∷ []) >> sent s >> sent line_end
write_single_value (error e) = sent (b'-' ∷ []) >> sent e >> sent line_end
write_single_value (integer i) = sent (b':' ∷ []) >> write_decimal i >> sent line_end
write_single_value null = sent (b'$' ∷ b'-' ∷ b'1' ∷ line_end)
write_single_value (bulk_string bs) =
    sent (b'$' ∷ [])
    >> write_decimal (as_i64 (length bs))
    >> sent line_end
    >> sent bs
    >> sent line_end
write_single_value (array fs) = panic

abbrev pub count : Frames → ℕ
count nil = 0
count (cons f fs) = suc (count fs)

unfoldable pub write_items : Frames → Written
write_items nil = sent []
write_items (cons f fs) = write_single_value f >> write_items fs

unfoldable pub write_array : Frames → Written
unfolding write_items
write_array fs =
    sent (b'*' ∷ []) >> write_decimal (as_i64 (count fs)) >> sent line_end >> write_items fs

unfoldable pub write_frame : Frame → Written
unfolding write_array write_single_value
write_frame (array fs) = write_array fs
write_frame f = write_single_value f
