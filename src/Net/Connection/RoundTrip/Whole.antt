-- ===== src/Net/Connection/RoundTrip/Whole.antt =====
-- Whole frames: the encoding of the protocol, and that writing and parsing meet it.
use opal.Prelude.{
  ℕ, suc, ◌^◌, ◌<◌, ◌≡◌, refl, Bool, true, false, [], ◌∷◌, ◌++◌, arith, length, append-nil,
  append_assoc, ◌==◌, if◌then◌else◌,
}
use opal.Prelude.Int.{ℤ, pos}
use opal.Env.{Env, Bytes, documented}
use opal.Net.Frame.Data.{
  Frame, Frames, simple_string, error, integer, bulk_string, array, null, nil, cons,
}
use opal.Net.Frame.I64.{in_i64}
use opal.Net.Frame.Decimal.{decimal, decimal_ℕ, AllDigits, decimal_ℕ-AllDigits, decimal_ℕ_pos}
use opal.Net.Frame.Reader.{Reader, ◌>>=◌, ◌>>◌ as ◌then◌, get_byte, peek_byte, get_integer, pure}
use opal.Net.Frame.Parse.{parse, parse_tagged, parse_items, parse_bulk, parse_null, parse_array}
use opal.Net.Frame.Reads.{Reads, crlf, Reads-bind, Reads-pure, get_byte-Reads}
use opal.Net.Frame.Reads.Integer.{get_integer-Reads}
use opal.Net.Connection.Write.{sent, write_single_value, write_items, write_frame, count}
use opal.Net.Connection.RoundTrip.{
  IsFlat, AllFlat, IsWritable, write_decimal_lem, as_i64_lem, in_i64-pos, line-Reads, peek-Reads,
  parse_null-Reads, parse_bulk-Reads,
}

-- The protocol's encoding of a frame; an array shows the number of its elements and then each.
mutual
  pub encoding : Frame → Bytes
  encoding (simple_string s) = b'+' ∷ (s ++ crlf)
  encoding (error s) = b'-' ∷ (s ++ crlf)
  encoding (integer x) = b':' ∷ (decimal x ++ crlf)
  encoding (bulk_string bs) = b'$' ∷ (decimal (pos (length bs)) ++ (crlf ++ (bs ++ crlf)))
  encoding null = b'$' ∷ b'-' ∷ b'1' ∷ crlf
  encoding (array fs) = b'*' ∷ (decimal (pos (count fs)) ++ (crlf ++ encoding_items fs))

  pub encoding_items : Frames → Bytes
  encoding_items nil = []
  encoding_items (cons f fs) = encoding f ++ encoding_items fs

write_single_value_lem : (f : Frame) → IsFlat f → write_single_value f ≡ sent (encoding f)
unfolding write_single_value encoding
write_single_value_lem (simple_string s) h = refl
write_single_value_lem (error s) h = refl
write_single_value_lem (integer x) h = rw (write_decimal_lem x h)
write_single_value_lem (bulk_string bs) h =
    let n = length bs in
    rw (as_i64_lem n h) (rw (write_decimal_lem (pos n) (in_i64-pos n h)) (simp append_assoc))
write_single_value_lem (array fs) h = absurd h
write_single_value_lem null h = refl

write_items_lem : (fs : Frames) → AllFlat fs → write_items fs ≡ sent (encoding_items fs)
unfolding write_items encoding
write_items_lem nil h = refl
write_items_lem (cons f fs) h = rw (write_single_value_lem f h.0) (rw (write_items_lem fs h.1))

-- A frame that can be written is written in the protocol's encoding.
pub write_frame-encoding : (f : Frame) → IsWritable f → write_frame f ≡ sent (encoding f)
unfolding write_frame encoding
write_frame-encoding (array fs) h =
    let n = count fs in
    unfold encoding in
    rw (as_i64_lem n h.1) (
      rw (write_decimal_lem (pos n) (in_i64-pos n h.1))
        (rw (write_items_lem fs h.0) (simp append_assoc)))
write_frame-encoding (simple_string s) h = write_single_value_lem (simple_string s) h
write_frame-encoding (error s) h = write_single_value_lem (error s) h
write_frame-encoding (integer x) h = write_single_value_lem (integer x) h
write_frame-encoding (bulk_string bs) h = write_single_value_lem (bulk_string bs) h
write_frame-encoding null h = refl

module _ (k : Bool) where
  instance abbrev here : Env
  here = documented k

  integer-Reads :
      (make : ℤ → Frame) (x : ℤ)
      → in_i64 x ≡ true
      → Reads (get_integer >>= λ y. pure (make y)) (decimal x ++ crlf) (make x)
  integer-Reads make x h = rw (← append-nil (decimal x ++ crlf)) (
      Reads-bind get_integer _ (decimal x ++ crlf) [] x (make x) (get_integer-Reads k x h)
        (Reads-pure (make x)))

  -- Behind its first byte, each flat frame is read by its branch.
  tagged-Reads :
      (b : ℕ) (items : ℕ → Reader Frames) (w : Bytes) (f : Frame)
      → Reads (parse_tagged items b) w f
      → Reads (get_byte >>= parse_tagged items) (b ∷ w) f
  tagged-Reads b items w f h =
      Reads-bind get_byte (parse_tagged items) (b ∷ []) w b f (get_byte-Reads k b) h

  dollar-Reads :
      (ds r : Bytes) (f : Frame)
      → AllDigits ds
      → 0 < length ds
      → Reads parse_bulk (ds ++ r) f
      → Reads (peek_byte >>= λ s. if s == b'-' then parse_null else parse_bulk) (ds ++ r) f
  dollar-Reads [] r f h l p = absurd (omega arith)
  dollar-Reads (d ∷ ds) r f h l p =
      let not_minus : (d == b'-') ≡ false = ground arith in
      peek-Reads k _ d (ds ++ r) f (rw not_minus p)

  array-Reads :
      (g : Reader Frame) (fs : Frames)
      → AllFlat fs
      → count fs < 2 ^ 63
      → Reads (parse_items g (count fs)) (encoding_items fs) fs
      → Reads
          (parse_array (parse_items g))
          (decimal (pos (count fs)) ++ (crlf ++ encoding_items fs))
          (array fs)
  unfolding parse_array
  array-Reads g fs h l p =
      let n = pos (count fs) in
      rw (← append_assoc (decimal n) crlf (encoding_items fs)) (
        Reads-bind get_integer _ (decimal n ++ crlf) (encoding_items fs) n (array fs)
          (get_integer-Reads k n (in_i64-pos (count fs) l))
          (rw (← append-nil (encoding_items fs)) (
            Reads-bind (parse_items g (count fs)) _ (encoding_items fs) [] fs (array fs) p
              (Reads-pure (array fs)))))

  flat-Reads : (n : ℕ) (f : Frame) → IsFlat f → Reads (parse (suc n)) (encoding f) f
  unfolding parse encoding
  flat-Reads n (simple_string s) h =
      tagged-Reads b'+' _ (s ++ crlf) (simple_string s) (line-Reads k simple_string s h)
  flat-Reads n (error s) h = tagged-Reads b'-' _ (s ++ crlf) (error s) (line-Reads k error s h)
  flat-Reads n (integer x) h =
      tagged-Reads b':' _ (decimal x ++ crlf) (integer x) (integer-Reads integer x h)
  flat-Reads n (bulk_string bs) h = tagged-Reads b'$' _ _ (bulk_string bs) (
      unfold decimal in
      dollar-Reads (decimal_ℕ (length bs)) _ (bulk_string bs) (decimal_ℕ-AllDigits (length bs))
        (decimal_ℕ_pos (length bs)) (parse_bulk-Reads k bs h))
  flat-Reads n (array fs) h = absurd h
  flat-Reads n null h =
      tagged-Reads b'$' _ (b'-' ∷ b'1' ∷ crlf) null
        (peek-Reads k _ b'-' (b'1' ∷ crlf) null (parse_null-Reads k))

  items-Reads :
      (n : ℕ) (fs : Frames)
      → AllFlat fs
      → Reads (parse_items (parse (suc n)) (count fs)) (encoding_items fs) fs
  unfolding parse_items encoding
  items-Reads n nil h = Reads-pure nil
  items-Reads n (cons f fs) h =
      Reads-bind (parse (suc n)) _ (encoding f) (encoding_items fs) f (cons f fs)
        (flat-Reads n f h.0)
        (rw (← append-nil (encoding_items fs)) (
          Reads-bind (parse_items (parse (suc n)) (count fs)) _ (encoding_items fs) [] fs
            (cons f fs) (items-Reads n fs h.1) (Reads-pure (cons f fs))))

  pub parse-Reads : (n : ℕ) (f : Frame) → IsWritable f → Reads (parse (suc (suc n))) (encoding f) f
  parse-Reads n (array fs) h =
      unfold parse encoding in
      tagged-Reads b'*' _ _ (array fs)
        (array-Reads (parse (suc n)) fs h.0 h.1 (items-Reads n fs h.0))
  parse-Reads n (simple_string s) h = flat-Reads (suc n) (simple_string s) h
  parse-Reads n (error s) h = flat-Reads (suc n) (error s) h
  parse-Reads n (integer x) h = flat-Reads (suc n) (integer x) h
  parse-Reads n (bulk_string bs) h = flat-Reads (suc n) (bulk_string bs) h
  parse-Reads n null h = flat-Reads (suc n) null h
