-- ===== src/Net/Frame/Reader.antt =====
-- net/frame.rs: the private functions that read a line, an integer or a byte from a cursor.
use opal.Prelude.{
  ℕ, ◌+◌, ◌-◌, ◌≡◌, refl, Bool, true, false, ◌||◌, not, Option, none, some, [], ◌∷◌, length, take,
  drop, ltb, leb, ◌==◌, if◌then◌else◌,
}
use opal.Prelude.Int.{ℤ, pos, ◌+ℤ◌, ◌-ℤ◌, ◌*ℤ◌}
use opal.Env.{Env, Bytes, Cursor}
use opal.Net.Frame.I64.{checked, unchecked}
use opal.Net.Frame.Data.{Error, incomplete, bad_encoding, not_integer}

-- What a function over `&mut Cursor` leaves: its value and the cursor, an error (each caller drops
-- the cursor then), or a panic. `no_fuel` has no counterpart in the program.
pub data Outcome {ℓ} (A : Type ℓ) : Type ℓ where
  ok : A → Cursor → Outcome A
  err : Error → Outcome A
  panic no_fuel : Outcome A

abbrev pub Reader {ℓ} : Type ℓ → Type ℓ
Reader A = Cursor → Outcome A

infixl 5 ◌>>=◌ ◌>>◌
abbrev pub continue {ℓ κ} : {A : Type ℓ} {B : Type κ} → Outcome A → (A → Reader B) → Outcome B
continue (ok a c) f = f a c
continue (err x) f = err x
continue panic f = panic
continue no_fuel f = no_fuel

abbrev pub ◌>>=◌ {ℓ κ} : {A : Type ℓ} {B : Type κ} → Reader A → (A → Reader B) → Reader B
◌>>=◌ m f c = continue (m c) f

abbrev pub ◌>>◌ {ℓ} : {B : Type ℓ} → Reader (Unit {0}) → Reader B → Reader B
m >> k = m >>= λ _. k

pub continue_assoc :
    {A B C : Type 0} (o : Outcome A) (f : A → Reader B) (g : B → Reader C)
    → continue (continue o f) g ≡ continue o (λ a c. continue (f a c) g)
continue_assoc (ok a c) f g = refl
continue_assoc (err x) f g = refl
continue_assoc panic f g = refl
continue_assoc no_fuel f g = refl

abbrev pub pure {ℓ} : {A : Type ℓ} → A → Reader A
pure a c = ok a c

abbrev pub fail {ℓ} : {A : Type ℓ} → Error → Reader A
fail x c = err x

abbrev pub or_panic {ℓ} : {A : Type ℓ} → Option A → Reader A
or_panic none c = panic
or_panic (some a) c = ok a c

abbrev pub or_fail {ℓ} : {A : Type ℓ} → Option A → Error → Reader A
or_fail none x c = err x
or_fail (some a) x c = ok a c

-- A call of the `bytes` crate that moves the cursor.
abbrev pub moved {ℓ} : {A : Type ℓ} → Option (A × Cursor) → Outcome A
moved none = panic
moved (some (a, c)) = ok a c

abbrev pub moved_to : Option Cursor → Outcome (Unit {0})
moved_to none = panic
moved_to (some c) = ok tt c

-- `&buf.get_ref()[start..end]`
abbrev pub slice : Cursor → ℕ → ℕ → Bytes
slice c start end = take (end - start) (drop start c.bytes)

unfoldable pub ascii_to_i64 : ℕ → Option ℕ
ascii_to_i64 b = if leb 48 b then (if leb b 57 then some (b - 48) else none) else none

module _ ⦃e : Env⦄ where
  abbrev pub advance : ℕ → Reader (Unit {0})
  advance n c = moved_to (e.advance c n)

  unfoldable pub get_byte : Reader ℕ
  get_byte c = if e.remaining c == 0 then err incomplete else moved (e.get_u8 c)

  abbrev first : Bytes → Reader ℕ
  first [] c = panic
  first (b ∷ _) c = ok b c

  unfoldable pub peek_byte : Reader ℕ
  peek_byte c = if e.remaining c == 0 then err incomplete else first (e.chunk c) c

  unfoldable pub skip : ℕ → Reader (Unit {0})
  skip n c = if ltb (e.remaining c) n then err incomplete else advance n c

  -- The loop of `get_line` at index `i`, with the bytes from `i` on.
  unfoldable pub line_loop : ℕ → ℕ → Bytes → ℕ → Reader Bytes
  line_loop start end [] i c = if ltb i end then panic else err incomplete
  line_loop start end (b ∷ bs) i c =
      let more = line_loop start end bs (i + 1) c in
      if ltb i end
      then if b == 13
        then (advance (i - start + 2) >> pure (slice c start i)) c
        else if b == 10
        then err bad_encoding
        else more
      else err incomplete

  -- `buf.get_ref().len() - 1` underflows on an empty buffer, which panics here or at the first index.
  unfoldable pub get_line : Reader Bytes
  get_line c =
      if length c.bytes == 0
      then panic
      else line_loop c.position (length c.bytes - 1) (drop c.position c.bytes) c.position c

  abbrev pub max_safe_digits : ℕ
  max_safe_digits = 18

  -- `num * 10 + n`, or `num * 10 - n` after a minus sign, with the operators of `i64`.
  unfoldable pub shift_unchecked : Bool → ℤ → ℕ → Option ℤ
  unfolding unchecked
  shift_unchecked is_positive num n = elim (unchecked (num *ℤ pos 10)) [
    | none ↦ none
    | some tenfold ↦ unchecked (if is_positive then tenfold +ℤ pos n else tenfold -ℤ pos n)
  ]

  -- The loop of `get_integer` with the unchecked operators, at index `idx` with the bytes from there.
  unfoldable pub unchecked_loop : Bool → ℕ → Bytes → ℕ → ℤ → Reader (Bytes × ℕ × ℤ)
  unchecked_loop is_positive end [] idx num c =
      if idx == end || idx == max_safe_digits then ok ([], idx, num) c else panic
  unchecked_loop is_positive end (b ∷ bs) idx num c =
      if idx == end || idx == max_safe_digits
      then ok (b ∷ bs, idx, num) c
      else elim (ascii_to_i64 b) [
        | none ↦ ok (b ∷ bs, idx, num) c
        | some n ↦
            (or_panic (shift_unchecked is_positive num n)
                >>= unchecked_loop is_positive end bs (idx + 1))
              c
      ]

-- The same with `checked_mul`, `checked_add` and `checked_sub`.
unfoldable pub shift_checked : Bool → Option ℤ → ℕ → Option ℤ
unfolding checked
shift_checked is_positive none n = none
shift_checked is_positive (some num) n = elim (checked (num *ℤ pos 10)) [
  | none ↦ none
  | some tenfold ↦ checked (if is_positive then tenfold +ℤ pos n else tenfold -ℤ pos n)
]

unfoldable pub checked_loop : Bool → ℕ → Bytes → ℕ → Option ℤ → Reader (Bytes × ℕ × Option ℤ)
checked_loop is_positive end [] idx num c = if idx == end then ok ([], idx, num) c else panic
checked_loop is_positive end (b ∷ bs) idx num c =
    if idx == end then ok (b ∷ bs, idx, num) c else elim (ascii_to_i64 b) [
      | none ↦ ok (b ∷ bs, idx, num) c
      | some n ↦ checked_loop is_positive end bs (idx + 1) (shift_checked is_positive num n) c
    ]

module _ ⦃e : Env⦄ where
  -- The sign byte, and whether the number is positive.
  unfoldable pub get_sign : Reader Bool
  unfolding peek_byte
  get_sign = do
    b ← peek_byte
    if b == b'-'
        then (advance 1 >> pure false)
        else if b == b'+'
        then (advance 1 >> pure true)
        else pure true

  -- What follows the two loops.
  unfoldable pub finish_integer : ℕ → ℕ → ℕ → Bytes × ℕ × Option ℤ → Reader ℤ
  finish_integer init start end ([], idx, num) c = if idx == end then err incomplete else panic
  finish_integer init start end (b ∷ bs, idx, num) c =
      if idx == end
      then err incomplete
      else if idx == start || not (b == 13)
      then err (not_integer (slice c init (idx + 1)))
      else (advance (idx - start + 2) >> or_fail num (not_integer (slice c init idx))) c

  unfoldable pub digits_of : Bool → ℕ → ℕ → Bytes → ℕ → Reader ℤ
  unfolding unchecked_loop checked_loop finish_integer shift_unchecked shift_checked ascii_to_i64
  digits_of is_positive init start bs end = do
    u ← unchecked_loop is_positive end bs start (pos 0)
    d ← checked_loop is_positive end u.0 u.1 (some u.2)
    finish_integer init start end d

  unfoldable pub get_integer : Reader ℤ
  unfolding get_sign digits_of
  get_integer c =
      (do
        is_positive ← get_sign
        λ c'.
            digits_of is_positive c.position c'.position (drop c'.position c'.bytes)
              (length c'.bytes - 1) c')
        c
