-- ===== src/Net/Frame/Stable.antt =====
-- The checker and the parser when more bytes follow: what they returned they return again.
use opal.Prelude.{ℕ, zero, suc, ◌+◌, Bool, arith, take-append, length-drop}
use opal.Env.{Env, Bytes, documented, rest}
use opal.Net.Frame.Data.{Frame, Frames}
use opal.Net.Frame.Reader.{Reader, get_byte, skip}
use opal.Net.Frame.Parse.{
  check, check_tagged, check_items, check_null, check_bulk, parse, parse_tagged, parse_items,
  take_bulk,
}
use opal.Net.Frame.Extend.{
  IsStable, pure-IsStable, fail-IsStable, or_fail-IsStable, if-IsStable, bind-IsStable,
  get_byte-IsStable, peek_byte-IsStable, get_line-IsStable, get_integer-IsStable, skip-IsStable,
  length-extend, rest-extend,
}

ruleset stable = (pure-IsStable, fail-IsStable, or_fail-IsStable, if-IsStable, bind-IsStable)

module _ (k : Bool) (more : Bytes) where
  instance abbrev here : Env
  here = documented k

  skip_bulk-IsStable : (n : ℕ) → IsStable more (skip (n + 2))
  skip_bulk-IsStable n = skip-IsStable k more (n + 2) (omega arith)

  null-IsStable : IsStable more check_null
  unfolding check_null
  null-IsStable = skip-IsStable k more 4 (omega arith)

  take_bulk-IsStable : (n : ℕ) → IsStable more (take_bulk n)
  unfolding take_bulk skip
  take_bulk-IsStable n = record {
    at = λ c. ground (
      arith,
      length-extend k more c,
      rest-extend k more c,
      take-append n (rest c) more,
      length-drop c.position c.bytes,
    );
  }

  ruleset readers = (
    stable, get_byte-IsStable, peek_byte-IsStable, get_line-IsStable, get_integer-IsStable,
    skip_bulk-IsStable, take_bulk-IsStable, null-IsStable,
  )

  check_items-IsStable :
      (item : Reader (Unit {0})) (n : ℕ) → IsStable more item → IsStable more (check_items item n)
  unfolding check_items
  check_items-IsStable item zero h = search stable
  check_items-IsStable item (suc n) h =
      bind-IsStable more item _ h (λ _. check_items-IsStable item n h)

  check_bulk-IsStable : IsStable more check_bulk
  unfolding check_bulk
  check_bulk-IsStable = search readers

  check_tagged-IsStable :
      (items : ℕ → Reader (Unit {0})) (b : ℕ)
      → ((n : ℕ) → IsStable more (items n))
      → IsStable more (check_tagged items b)
  unfolding check_tagged
  check_tagged-IsStable items b h = search (readers, check_bulk-IsStable) depth 12

  pub check-IsStable : (fuel : ℕ) → IsStable more (check fuel)
  unfolding check
  check-IsStable zero = record { at = λ c. tt }
  check-IsStable (suc fuel) = bind-IsStable more get_byte _ (get_byte-IsStable k more) λ b.
      check_tagged-IsStable (check_items (check fuel)) b
        λ n. check_items-IsStable (check fuel) n (check-IsStable fuel)

  parse_items-IsStable :
      (item : Reader Frame) (n : ℕ) → IsStable more item → IsStable more (parse_items item n)
  unfolding parse_items
  parse_items-IsStable item zero h = search stable
  parse_items-IsStable item (suc n) h = bind-IsStable more item _ h (λ f.
      bind-IsStable more (parse_items item n) _ (parse_items-IsStable item n h)
        (λ fs. search stable))

  parse_tagged-IsStable :
      (items : ℕ → Reader Frames) (b : ℕ)
      → ((n : ℕ) → IsStable more (items n))
      → IsStable more (parse_tagged items b)
  unfolding parse_tagged
  parse_tagged-IsStable items b h = search readers depth 12

  pub parse-IsStable : (fuel : ℕ) → IsStable more (parse fuel)
  unfolding parse
  parse-IsStable zero = record { at = λ c. tt }
  parse-IsStable (suc fuel) = bind-IsStable more get_byte _ (get_byte-IsStable k more) λ b.
      parse_tagged-IsStable (parse_items (parse fuel)) b
        λ n. parse_items-IsStable (parse fuel) n (parse-IsStable fuel)
