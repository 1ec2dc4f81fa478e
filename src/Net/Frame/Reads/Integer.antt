-- ===== src/Net/Frame/Reads/Integer.antt =====
-- `get_integer` on a number that was printed.
use opal.Prelude.{
  ℕ, zero, suc, ◌+◌, ◌-◌, ◌*◌, ◌^◌, ◌≤◌, ◌<◌, ◌≡◌, refl, Bool, true, false, none, some, [], ◌∷◌,
  ◌++◌, arith, length, length-append, length-drop, ◌==◌, ◌||◌, if◌then◌else◌, Bool-cases, inl, inr,
  ◌∙◌, ap, append_assoc,
}
use opal.Prelude.Int.{ℤ, pos, negsuc, ◌+ℤ◌, ◌-ℤ◌, ◌*ℤ◌}
use opal.Env.{Env, Bytes, Cursor, documented, rest, seek_by}
use opal.Net.Frame.I64.{in_i64, checked, unchecked}
use opal.Net.Frame.Decimal.{
  decimal, decimal_ℕ, AllDigits, worth, le-worth, decimal_ℕ-worth, decimal_ℕ-AllDigits,
  decimal_ℕ_pos,
}
use opal.Net.Frame.Reader.{
  ok, continue, continue_assoc, get_integer, get_sign, digits_of, finish_integer, unchecked_loop,
  checked_loop, shift_unchecked, shift_checked, ascii_to_i64,
}
use opal.Net.Frame.Reads.{Reads, crlf, seek-seek, peek_byte_lem, rest-seek_by, length-rest}

-- The number of this sign and magnitude.
abbrev pub signed : Bool → ℕ → ℤ
signed true m = pos m
signed false zero = pos 0
signed false (suc m) = negsuc m

-- The largest magnitude of an `i64` of this sign.
abbrev pub room : Bool → ℕ
room true = 2 ^ 63 - 1
room false = 2 ^ 63

tenfold_lem : (s : Bool) (m : ℕ) → signed s m *ℤ pos 10 ≡ signed s (m * 10)
unfolding ◌*ℤ◌
tenfold_lem true m = ground arith
tenfold_lem false zero = ground arith
tenfold_lem false (suc m) = ground arith

add_lem :
    (s : Bool) (m d : ℕ)
    → (if s then signed s m +ℤ pos d else signed s m -ℤ pos d) ≡ signed s (m + d)
unfolding ◌+ℤ◌ ◌-ℤ◌
add_lem true m d = ground arith
add_lem false zero d = ground arith
add_lem false (suc m) d = ground arith

in_i64-signed : (s : Bool) (m : ℕ) → m ≤ room s → in_i64 (signed s m) ≡ true
unfolding in_i64
in_i64-signed true m h = ground arith
in_i64-signed false zero h = ground arith
in_i64-signed false (suc m) h = ground arith

checked-signed : (s : Bool) (m : ℕ) → m ≤ room s → checked (signed s m) ≡ some (signed s m)
unfolding checked
checked-signed s m h = rw (in_i64-signed s m h)

shift_checked_lem :
    (s : Bool) (m d : ℕ)
    → m * 10 + d ≤ room s
    → shift_checked s (some (signed s m)) d ≡ some (signed s (m * 10 + d))
unfolding shift_checked
shift_checked_lem s m d h =
    rw (tenfold_lem s m, shift_checked)
      (rw (checked-signed s (m * 10) (omega arith), shift_checked)
        (rw (add_lem s (m * 10) d) (checked-signed s (m * 10 + d) h)))

module _ (k : Bool) where
  instance abbrev here : Env
  here = documented k

  unchecked-signed : (s : Bool) (m : ℕ) → m ≤ room s → unchecked (signed s m) ≡ some (signed s m)
  unfolding unchecked
  unchecked-signed s m h = rw (in_i64-signed s m h)

  shift_unchecked_lem :
      (s : Bool) (m d : ℕ)
      → m * 10 + d ≤ room s
      → shift_unchecked s (signed s m) d ≡ some (signed s (m * 10 + d))
  unfolding shift_unchecked
  shift_unchecked_lem s m d h =
      rw (tenfold_lem s m, shift_unchecked)
        (rw (unchecked-signed s (m * 10) (omega arith), shift_unchecked)
          (rw (add_lem s (m * 10) d) (unchecked-signed s (m * 10 + d) h)))

  ascii_to_i64_lem : (b : ℕ) → 48 ≤ b → b ≤ 57 → ascii_to_i64 b ≡ some (b - 48)
  unfolding ascii_to_i64
  ascii_to_i64_lem b p q = ground arith

  not_digit : ascii_to_i64 13 ≡ none
  unfolding ascii_to_i64
  not_digit = refl

  -- From a number `m` the checked loop reads all digits up to the line end.
  checked_loop_lem :
      (s : Bool) (end : ℕ) (ds r : Bytes) (i m : ℕ) (c : Cursor)
      → AllDigits ds
      → i + length ds < end
      → worth m ds ≤ room s
      → checked_loop s end (ds ++ 13 ∷ r) i (some (signed s m)) c
        ≡ ok (13 ∷ r, i + length ds, some (signed s (worth m ds))) c
  unfolding checked_loop
  checked_loop_lem s end [] r i m c h p q =
      let e : i + 0 ≡ i = omega arith in rw e (ground (arith, not_digit))
  checked_loop_lem s end (b ∷ ds) r i m c h p q =
      let e : i + suc (length ds) ≡ i + 1 + length ds = omega arith in
      let d = ascii_to_i64_lem b h.0 h.1 in
      let f = shift_checked_lem s m (b - 48) (omega (arith, le-worth ds (m * 10 + (b - 48)))) in
      rw e (
        rw d (rw f (ground (arith, checked_loop_lem s end ds r (i + 1) (m * 10 + (b - 48)) c h.2))))

  -- So do the two loops in turn, wherever the first one stops.
  loops_lem :
      (s : Bool) (end : ℕ) (ds r : Bytes) (i m : ℕ) (c : Cursor)
      → AllDigits ds
      → i + length ds < end
      → worth m ds ≤ room s
      → continue
          (unchecked_loop s end (ds ++ 13 ∷ r) i (signed s m) c)
          (λ u. checked_loop s end u.0 u.1 (some u.2))
        ≡ ok (13 ∷ r, i + length ds, some (signed s (worth m ds))) c
  unfolding unchecked_loop
  loops_lem s end [] r i m c h p q =
      rw not_digit (ground (arith, checked_loop_lem s end [] r i m c))
  loops_lem s end (b ∷ ds) r i m c h p q = elim (Bool-cases (i == end || i == 18)) [
    | inl stop ↦ rw stop (checked_loop_lem s end (b ∷ ds) r i m c h p q)
    | inr go ↦
        let e : i + suc (length ds) ≡ i + 1 + length ds = omega arith in
        let d = ascii_to_i64_lem b h.0 h.1 in
        let f = shift_unchecked_lem s m (b - 48) (omega (arith, le-worth ds (m * 10 + (b - 48)))) in
        rw e (
          rw go
            (rw d (rw f (loops_lem s end ds r (i + 1) (m * 10 + (b - 48)) c h.2 (omega arith) q))))
  ]

  finish_lem :
      (init : ℕ) (n : ℕ) (x : ℤ) (r : Bytes) (end : ℕ) (c : Cursor)
      → 0 < n
      → c.position + n < end
      → end + 1 ≡ length c.bytes
      → finish_integer init c.position end (13 ∷ r, c.position + n, some x) c
        ≡ ok x (seek_by c (n + 2))
  unfolding finish_integer
  finish_lem init n x r end c p q e = ground arith

  signed_zero : (s : Bool) → signed s 0 ≡ pos 0
  signed_zero true = refl
  signed_zero false = refl

  digits_of_lem :
      (s : Bool) (init : ℕ) (ds r : Bytes) (c : Cursor)
      → AllDigits ds
      → 0 < length ds
      → worth 0 ds ≤ room s
      → rest c ≡ ds ++ 13 ∷ 10 ∷ r
      → digits_of s init c.position (rest c) (length c.bytes - 1) c
        ≡ ok (signed s (worth 0 ds)) (seek_by c (length ds + 2))
  unfolding digits_of
  digits_of_lem s init ds r c h p q e =
      let end = length c.bytes - 1 in
      let total = length-rest c ds (13 ∷ 10 ∷ r) e p in
      rw (← signed_zero s) (
        rw
          (← continue_assoc (unchecked_loop s end (rest c) c.position (signed s 0) c)
            (λ u. checked_loop s end u.0 u.1 (some u.2)) (finish_integer init c.position end))
          (rw e (
            rw (loops_lem s end ds (10 ∷ r) c.position 0 c h (omega arith) q) (
              finish_lem init (length ds) (signed s (worth 0 ds)) (10 ∷ r) end c p (omega arith)
                (omega arith)))))

  sign_digit :
      (c : Cursor) (ds r : Bytes)
      → AllDigits ds
      → 0 < length ds
      → rest c ≡ ds ++ r
      → get_sign c ≡ ok true c
  unfolding get_sign
  sign_digit c [] r h p e = absurd (omega arith)
  sign_digit c (b ∷ ds) r h p e = rw (peek_byte_lem k c b (ds ++ r) e) (ground arith)

  sign_minus : (c : Cursor) (r : Bytes) → rest c ≡ b'-' ∷ r → get_sign c ≡ ok false (seek_by c 1)
  unfolding get_sign
  sign_minus c r e =
      rw (peek_byte_lem k c b'-' r e) (ground (arith, ap length e, length-drop c.position c.bytes))

  number_lem :
      (s : Bool) (init n : ℕ) (r : Bytes) (c : Cursor)
      → n ≤ room s
      → rest c ≡ (decimal_ℕ n ++ crlf) ++ r
      → digits_of s init c.position (rest c) (length c.bytes - 1) c
        ≡ ok (signed s n) (seek_by c (length (decimal_ℕ n ++ crlf)))
  number_lem s init n r c h e =
      let ds = decimal_ℕ n in
      let w : worth 0 ds ≡ n = decimal_ℕ-worth n in
      let l : length (ds ++ crlf) ≡ length ds + 2 = length-append ds crlf in
      let f =
        digits_of_lem s init ds r c (decimal_ℕ-AllDigits n) (decimal_ℕ_pos n) (rw w h)
          (e ∙ append_assoc ds crlf r) in
      rw l (rw w at f)

  -- A printed `i64` and the line end behind it are read as that number.
  pub get_integer-Reads : (x : ℤ) → in_i64 x ≡ true → Reads get_integer (decimal x ++ crlf) x
  unfolding get_integer decimal in_i64
  get_integer-Reads (pos n) h = record {
    at = λ c r e.
        rw
          (sign_digit c (decimal_ℕ n) (crlf ++ r) (decimal_ℕ-AllDigits n) (decimal_ℕ_pos n)
            (e ∙ append_assoc (decimal_ℕ n) crlf r))
          (number_lem true c.position n r c (ground arith) e);
  }
  get_integer-Reads (negsuc n) h = record {
    at = λ c r e. rw (sign_minus c ((decimal_ℕ (suc n) ++ crlf) ++ r) e) (
        number_lem false c.position (suc n) r (seek_by c 1) (ground arith)
          (rest-seek_by c (b'-' ∷ []) ((decimal_ℕ (suc n) ++ crlf) ++ r) e)
        ∙ seek-seek (negsuc n) c 1 (length (decimal_ℕ (suc n) ++ crlf)) _ (omega arith));
  }
