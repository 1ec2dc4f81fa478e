-- ===== src/Net/Frame/Parse.antt =====
-- net/frame.rs: `Frame::check` and `Frame::parse`. The fuel bounds how deep arrays nest. The room
-- that `Vec::with_capacity` reserves is not modelled.
use opal.Prelude.{
  ℕ, zero, suc, ◌+◌, Bool, false, Option, none, some, [], ◌∷◌, ltb, ◌==◌, if◌then◌else◌,
}
use opal.Prelude.Int.{ℤ, pos, negsuc}
use opal.Env.{Env, Bytes}
use opal.Net.Frame.Data.{
  Frame, Frames, simple_string, error, integer, bulk_string, array, null, nil, cons, incomplete,
  bad_encoding, not_utf8,
}
use opal.Net.Frame.Utf8.{is_utf8}
use opal.Net.Frame.Reader.{
  Reader, err, no_fuel, ◌>>=◌, ◌>>◌, pure, fail, or_fail, moved, get_byte, peek_byte, get_line,
  get_integer, skip,
}

-- `String::from_utf8`
unfoldable pub from_utf8 : Bytes → Reader Bytes
from_utf8 bs = if is_utf8 bs then pure bs else fail (not_utf8 bs)

-- `i64::try_into::<usize>` on a 64-bit target.
abbrev pub to_usize : ℤ → Option ℕ
to_usize (pos n) = some n
to_usize (negsuc n) = none

-- How often `for _ in 0..n` runs.
abbrev pub rounds : ℤ → ℕ
rounds (pos n) = n
rounds (negsuc n) = 0

abbrev pub is_minus_one : Bytes → Bool
is_minus_one (a ∷ b ∷ []) = if a == b'-' then b == b'1' else false
is_minus_one _ = false

module _ ⦃e : Env⦄ where
  unfoldable pub check_null : Reader (Unit {0})
  check_null = skip 4

  unfoldable pub check_bulk : Reader (Unit {0})
  check_bulk = do n ← get_integer; n ← or_fail (to_usize n) bad_encoding; skip (n + 2)

  unfoldable pub check_items : Reader (Unit {0}) → ℕ → Reader (Unit {0})
  check_items item zero = pure tt
  check_items item (suc n) = item >> check_items item n

  -- The cases on the first byte, with the loop over the elements of an array.
  unfoldable pub check_tagged : (ℕ → Reader (Unit {0})) → ℕ → Reader (Unit {0})
  unfolding check_null check_bulk
  check_tagged items b =
      if b == b'+'
      then get_line >>= (λ _. pure tt)
      else if b == b'-'
      then get_line >>= (λ _. pure tt)
      else if b == b':'
      then get_integer >>= (λ _. pure tt)
      else if b == b'$'
      then peek_byte >>= (λ s. if s == b'-' then check_null else check_bulk)
      else if b == b'*'
      then get_integer >>= (λ n. items (rounds n))
      else fail bad_encoding

  unfoldable pub check : ℕ → Reader (Unit {0})
  unfolding check_tagged
  check zero = λ c. no_fuel
  check (suc fuel) = get_byte >>= check_tagged (check_items (check fuel))

  unfoldable pub parse_null : Reader Frame
  parse_null = do l ← get_line; if is_minus_one l then pure null else fail bad_encoding

  unfoldable pub take_bulk : ℕ → Reader Frame
  take_bulk len c =
      if ltb (e.remaining c) (len + 2)
      then err incomplete
      else ((λ c. moved (e.copy_to_bytes c len)) >>= λ b. (skip 2 >> pure (bulk_string b))) c

  unfoldable pub parse_bulk : Reader Frame
  unfolding take_bulk
  parse_bulk = do len ← get_integer; len ← or_fail (to_usize len) bad_encoding; take_bulk len

  unfoldable pub parse_items : Reader Frame → ℕ → Reader Frames
  parse_items item zero = pure nil
  parse_items item (suc n) = do f ← item; fs ← parse_items item n; pure (cons f fs)

  unfoldable pub parse_array : (ℕ → Reader Frames) → Reader Frame
  parse_array items = do
    len ← get_integer
    len ← or_fail (to_usize len) bad_encoding
    fs ← items len
    pure (array fs)

  unfoldable pub parse_tagged : (ℕ → Reader Frames) → ℕ → Reader Frame
  unfolding from_utf8 parse_null parse_bulk parse_array
  parse_tagged items b =
      if b == b'+'
      then (do l ← get_line; s ← from_utf8 l; pure (simple_string s))
      else if b == b'-'
      then (do l ← get_line; s ← from_utf8 l; pure (error s))
      else if b == b':'
      then get_integer >>= (λ x. pure (integer x))
      else if b == b'$'
      then peek_byte >>= (λ s. if s == b'-' then parse_null else parse_bulk)
      else if b == b'*'
      then parse_array items
      else fail bad_encoding

  unfoldable pub parse : ℕ → Reader Frame
  unfolding parse_tagged
  parse zero = λ c. no_fuel
  parse (suc fuel) = get_byte >>= parse_tagged (parse_items (parse fuel))
