-- ===== src/Net/Connection/RoundTrip.antt =====
-- What `write_frame` writes, `Frame::parse` reads back.
pub mod Whole
use native.Mathlib.Nat.{pow-suc}
use opal.Prelude.{
  ℕ, zero, suc, ◌+◌, ◌-◌, ◌*◌, ◌/◌, ◌%◌, ◌^◌, ◌≤◌, ◌<◌, ◌≡◌, ◌≢◌, refl, Bool, true, false, List, [],
  ◌∷◌, ◌++◌, arith, length, length-append, length-drop, take, drop, take-append, append-nil,
  append_assoc, ltb, leb, ◌==◌, if◌then◌else◌, Bool-cases, inl, inr, ◌∙◌, subst, sym, ap,
  take-length,
}
use opal.Prelude.Int.{ℤ, pos, negsuc}
use opal.Env.{Env, Bytes, Cursor, documented, IsDocumented, for_documented, rest, seek_by}
use opal.Net.Frame.Data.{
  Frame, Frames, simple_string, error, integer, bulk_string, array, null, nil, cons, bad_encoding,
}
use opal.Net.Frame.Utf8.{is_utf8}
use opal.Net.Frame.I64.{in_i64, wrap_i64}
use opal.Net.Frame.Decimal.{
  decimal, decimal_ℕ, digits, AllDigits, decimal_ℕ-AllDigits, decimal_ℕ_pos,
}
use opal.Net.Frame.Reader.{
  Reader, Outcome, ok, ◌>>=◌, ◌>>◌ as ◌then◌, get_byte, peek_byte, get_line, get_integer, skip,
  pure, or_fail, moved,
}
use opal.Net.Frame.Parse.{
  parse, parse_tagged, parse_items, parse_bulk, parse_null, parse_array, take_bulk, from_utf8,
  to_usize, is_minus_one,
}
use opal.Net.Frame.Reads.{
  Reads, crlf, Reads-bind, Reads-pure, get_byte-Reads, peek_byte_lem, skip-Reads, rest-seek_by,
  length-rest, seek-seek,
}
use opal.Net.Frame.Reads.Line.{NoBreak, get_line-Reads}
use opal.Net.Frame.Reads.Integer.{get_integer-Reads}
use opal.Net.Connection.Write.{
  Written, sent, write_decimal, write_single_value, write_items, write_array, write_frame, as_i64,
  count, ◌>>◌,
}

abbrev pub IsLine : Bytes → Type 0
IsLine s = (is_utf8 s ≡ true) × NoBreak s

-- The frames that an array may hold when it is written.
abbrev pub IsFlat : Frame → Type 0
IsFlat (simple_string s) = IsLine s
IsFlat (error s) = IsLine s
IsFlat (integer x) = in_i64 x ≡ true
IsFlat (bulk_string bs) = length bs < 2 ^ 63
IsFlat (array fs) = ⊥
IsFlat null = Unit

abbrev pub AllFlat : Frames → Type 0
AllFlat nil = Unit
AllFlat (cons f fs) = IsFlat f × AllFlat fs

abbrev pub IsWritable : Frame → Type 0
IsWritable (array fs) = AllFlat fs × (count fs < 2 ^ 63)
IsWritable f = IsFlat f

length-digits : (fuel k n : ℕ) → n < 10 ^ suc k → length (digits fuel n) ≤ suc k
unfolding digits
length-digits zero k n h = omega arith
length-digits (suc fuel) zero n h = ground arith
length-digits (suc fuel) (suc k) n h =
    let e : 10 ^ suc (suc k) ≡ 10 ^ suc k * 10 = pow-suc 10 (suc k) in
    let ih = length-digits fuel k (n / 10) (omega (arith, e)) in
    ground (arith, ih, length-append (digits fuel (n / 10)) ((48 + n % 10) ∷ []))

length-decimal_ℕ : (n : ℕ) → n ≤ 2 ^ 63 → length (decimal_ℕ n) ≤ 19
unfolding decimal_ℕ
length-decimal_ℕ n h = length-digits (suc n) 18 n (omega arith)

length-decimal : (x : ℤ) → in_i64 x ≡ true → length (decimal x) ≤ 20
unfolding decimal in_i64
length-decimal (pos n) h = ground (arith, length-decimal_ℕ n)
length-decimal (negsuc n) h = ground (arith, length-decimal_ℕ (suc n))

pub write_decimal_lem : (x : ℤ) → in_i64 x ≡ true → write_decimal x ≡ sent (decimal x)
unfolding write_decimal
write_decimal_lem x h = ground (arith, length-decimal x h)

pub as_i64_lem : (n : ℕ) → n < 2 ^ 63 → as_i64 n ≡ pos n
unfolding wrap_i64
as_i64_lem n h = ground arith

pub in_i64-pos : (n : ℕ) → n < 2 ^ 63 → in_i64 (pos n) ≡ true
unfolding in_i64
in_i64-pos n h = ground arith

module _ (k : Bool) where
  instance abbrev here : Env
  here = documented k

  from_utf8-Reads : (s : Bytes) → is_utf8 s ≡ true → Reads (from_utf8 s) [] s
  unfolding from_utf8
  from_utf8-Reads s h = rw h (Reads-pure s)

  pub line-Reads :
      (make : Bytes → Frame) (s : Bytes)
      → IsLine s
      → Reads (do l ← get_line; t ← from_utf8 l; pure (make t)) (s ++ crlf) (make s)
  line-Reads make s h = rw (← append-nil (s ++ crlf)) (
      Reads-bind get_line _ (s ++ crlf) [] s (make s) (get_line-Reads k s h.1)
        (Reads-bind (from_utf8 s) _ [] [] s (make s) (from_utf8-Reads s h.0) (Reads-pure (make s))))

  -- A byte that is looked at stays for the reader that follows.
  pub peek-Reads :
      (f : ℕ → Reader Frame) (b : ℕ) (w : Bytes) (a : Frame)
      → Reads (f b) (b ∷ w) a
      → Reads (peek_byte >>= f) (b ∷ w) a
  peek-Reads f b w a h = record { at = λ c r e. rw (peek_byte_lem k c b (w ++ r) e) (h.at c r e) }

  take_bulk-Reads : (bs : Bytes) → Reads (take_bulk (length bs)) (bs ++ crlf) (bulk_string bs)
  unfolding take_bulk skip
  take_bulk-Reads bs = record {
    at = λ c r e. ground (
      arith,
      e,
      append_assoc bs crlf r,
      take-length bs (crlf ++ r),
      length-append bs crlf,
      length-rest c (bs ++ crlf) r e,
      seek-seek (bulk_string bs) c (length bs) 2 (length bs + 2),
    );
  }

  pub parse_null-Reads : Reads parse_null (b'-' ∷ b'1' ∷ crlf) null
  unfolding parse_null
  parse_null-Reads =
      Reads-bind get_line _ (b'-' ∷ b'1' ∷ crlf) [] (b'-' ∷ b'1' ∷ []) null
        (get_line-Reads k (b'-' ∷ b'1' ∷ []) (omega arith)) (Reads-pure null)

  pub parse_bulk-Reads :
      (bs : Bytes)
      → length bs < 2 ^ 63
      → Reads parse_bulk (decimal (pos (length bs)) ++ (crlf ++ (bs ++ crlf))) (bulk_string bs)
  unfolding parse_bulk
  parse_bulk-Reads bs h =
      let n = pos (length bs) in
      rw (← append_assoc (decimal n) crlf (bs ++ crlf)) (
        Reads-bind get_integer _ (decimal n ++ crlf) (bs ++ crlf) n (bulk_string bs)
          (get_integer-Reads k n (in_i64-pos (length bs) h)) (take_bulk-Reads bs))
