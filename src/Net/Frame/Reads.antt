-- ===== src/Net/Frame/Reads.antt =====
-- What the readers do on bytes that were printed: a line, a number, a run of bytes.
pub mod Line
pub mod Integer
use opal.Prelude.{
  ℕ, zero, suc, ◌+◌, ◌-◌, ◌*◌, ◌^◌, ◌≤◌, ◌<◌, ◌≡◌, ◌≢◌, refl, Bool, true, false, Option, none, some,
  List, [], ◌∷◌, ◌++◌, arith, length, length-append, length-drop, take, drop, ltb, leb, ◌==◌, ◌||◌,
  if◌then◌else◌, Bool-cases, ◌⊎◌, inl, inr, ◌∙◌, subst, sym, ap, append_assoc, take-append,
  append-nil, drop-nil, drop-length,
}
use opal.Prelude.Int.{ℤ, pos, negsuc, ◌+ℤ◌, ◌-ℤ◌, ◌*ℤ◌}
use opal.Env.{Env, Bytes, Cursor, documented, rest, seek_by}
use opal.Net.Frame.I64.{i64_bound, in_i64, checked, unchecked}
use opal.Net.Frame.Data.{Frame, Frames}
use opal.Net.Frame.Decimal.{
  decimal, decimal_ℕ, AllDigits, worth, le-worth, decimal_ℕ-worth, decimal_ℕ-AllDigits,
  decimal_ℕ_pos,
}
use opal.Net.Frame.Reader.{
  Outcome, Reader, ok, err, panic, no_fuel, continue, ◌>>=◌, ◌>>◌, get_byte, peek_byte, get_line,
  line_loop, get_integer, skip, or_fail, or_panic, pure, fail, slice, get_sign, digits_of,
  finish_integer, unchecked_loop, checked_loop, shift_unchecked, shift_checked, ascii_to_i64,
  advance,
}

-- `m` reads `a` off the bytes `w` and stops behind them, whatever follows.
pub record Reads {ℓ} {A : Type ℓ} (m : Reader A) (w : Bytes) (a : A) : Type ℓ where
  pub at : (c : Cursor) (r : Bytes) → rest c ≡ w ++ r → m c ≡ ok a (seek_by c (length w))

abbrev pub crlf : Bytes
crlf = 13 ∷ 10 ∷ []

drop-add : (m n : ℕ) (bs : Bytes) → drop (m + n) bs ≡ drop n (drop m bs)
drop-add zero n bs = let e : 0 + n ≡ n = omega arith in rw e
drop-add (suc m) n [] = rw (drop-nil n) (drop-nil (suc m + n))
drop-add (suc m) n (b ∷ bs) =
    let e : suc m + n ≡ suc (m + n) = omega arith in rw e (drop-add m n bs)

pub rest-seek_by : (c : Cursor) (w r : Bytes) → rest c ≡ w ++ r → rest (seek_by c (length w)) ≡ r
rest-seek_by c w r h =
    drop-add c.position (length w) c.bytes ∙ ap (drop (length w)) h ∙ drop-length w r

pub length-rest :
    (c : Cursor) (w r : Bytes)
    → rest c ≡ w ++ r
    → 0 < length w
    → length c.bytes ≡ c.position + length w + length r
length-rest c w r h p =
    omega (arith, ap length h, length-append w r, length-drop c.position c.bytes)

pub seek-seek {ℓ} :
    {A : Type ℓ} (x : A) (c : Cursor) (m n j : ℕ)
    → m + n ≡ j
    → ok x (seek_by (seek_by c m) n) ≡ ok x (seek_by c j)
seek-seek x c m n j h = ap (λ i. ok x (record c { position = i })) (omega (arith, h))

module _ {ℓ κ} {A : Type ℓ} {B : Type κ} where
  pub Reads-bind :
      (m : Reader A) (f : A → Reader B) (v w : Bytes) (a : A) (b : B)
      → Reads m v a
      → Reads (f a) w b
      → Reads (m >>= f) (v ++ w) b
  Reads-bind m f v w a b h k = record {
    at = λ c r e.
        let e' = e ∙ append_assoc v w r in
        rw (h.at c (w ++ r) e') (
          k.at (seek_by c (length v)) r (rest-seek_by c v (w ++ r) e')
          ∙ ap (λ n. ok b (record c { position = n })) (omega (arith, length-append v w)));
  }

pub Reads-pure {ℓ} : {A : Type ℓ} (a : A) → Reads (pure a) [] a
Reads-pure a = record { at = λ c r e. ap (λ n. ok a (record c { position = n })) (omega arith) }

module _ (k : Bool) where
  instance abbrev pub here : Env
  here = documented k

  pub get_byte-Reads : (b : ℕ) → Reads get_byte (b ∷ []) b
  unfolding get_byte
  get_byte-Reads b = record {
    at = λ c r e. ground (arith, e, ap length e, length-drop c.position c.bytes);
  }

  pub peek_byte_lem : (c : Cursor) (b : ℕ) (r : Bytes) → rest c ≡ b ∷ r → peek_byte c ≡ ok b c
  unfolding peek_byte
  peek_byte_lem c b r e = ground (arith, e, ap length e, length-drop c.position c.bytes)

  pub skip-Reads : (w : Bytes) → 0 < length w → Reads (skip (length w)) w tt
  unfolding skip
  skip-Reads w h = record { at = λ c r e. ground (arith, length-rest c w r e h) }
