-- ===== src/Net/Frame/Fuel.antt =====
-- The checker and the parser never run out of fuel when it exceeds the bytes that are left.
use opal.Prelude.{
  ℕ, zero, suc, ◌+◌, ◌≤◌, ◌<◌, ◌≡◌, refl, Bool, true, false, Option, none, some, arith, length,
  if◌then◌else◌, ◌∙◌, subst,
}
use opal.Env.{Env, Cursor, documented}
use opal.Net.Frame.Data.{Frame, Frames, Error}
use opal.Net.Frame.Reader.{
  Outcome, Reader, continue, ◌>>=◌, get_byte, peek_byte, get_line, get_integer, skip, or_fail, pure,
  fail,
}
use opal.Net.Frame.Parse.{
  check, check_tagged, check_items, parse, parse_tagged, parse_items, take_bulk,
}
use opal.Net.Frame.Progress.{
  Ensures, Moved, Ensures-bind, Ensures-weaken, get_byte-Moved, peek_byte-Moved, skip-Moved,
  get_line-Moved, get_integer-Moved,
}

-- From any cursor of these bytes at or behind `c`, `m` does not move back.
record MovesFrom {ℓ} {A : Type ℓ} (c : Cursor) (m : Reader A) : Type ℓ where
  at :
      (d : Cursor)
      → d.bytes ≡ c.bytes
      → c.position ≤ d.position
      → d.position ≤ length c.bytes
      → Ensures (Moved d 0) (m d)

module _ {ℓ κ} {A : Type ℓ} {B : Type κ} where
  Moved-trans :
      (c d e : Cursor) (m : ℕ) (a : A) (b : B) → Moved c m a d → Moved d 0 b e → Moved c m b e
  Moved-trans c d e m a b p q =
      (q.0 ∙ p.0, omega arith, subst (λ bs. e.position ≤ length bs) p.0 q.2)

  then-Moved :
      (c : Cursor) (m : ℕ) (o : Outcome A) (f : A → Reader B)
      → Ensures (Moved c m) o
      → ((a : A) (d : Cursor) → Moved c m a d → Ensures (Moved d 0) (f a d))
      → Ensures (Moved c m) (continue o f)
  then-Moved c m o f h k = Ensures-bind (Moved c m) (Moved c m) o f h λ a d p.
      Ensures-weaken (Moved d 0) (Moved c m) (f a d) (λ b e q. Moved-trans c d e m a b p q)
        (k a d p)

Moved-weaken {ℓ} :
    {A : Type ℓ} (c : Cursor) (n : ℕ) (o : Outcome A)
    → Ensures (Moved c n) o
    → Ensures (Moved c 0) o
Moved-weaken c n o = Ensures-weaken (Moved c n) (Moved c 0) o (λ a d q. (q.0, omega arith, q.2))

module _ {ℓ} {A : Type ℓ} {c : Cursor} where
  pure-MovesFrom : (a : A) → MovesFrom c (pure a)
  pure-MovesFrom a = record { at = λ d p q r. (refl, omega arith, rw p r) }

  fail-MovesFrom : (x : Error) → MovesFrom {A = A} c (fail x)
  fail-MovesFrom x = record { at = λ d p q r. tt }

  or_fail-MovesFrom : (o : Option A) (x : Error) → MovesFrom c (or_fail o x)
  or_fail-MovesFrom none x = record { at = λ d p q r. tt }
  or_fail-MovesFrom (some a) x = record { at = λ d p q r. (refl, omega arith, rw p r) }

  if-MovesFrom :
      (b : Bool) (m n : Reader A) → MovesFrom c m → MovesFrom c n → MovesFrom c (if b then m else n)
  if-MovesFrom true m n h k = h
  if-MovesFrom false m n h k = k

  from-MovesFrom :
      (n : ℕ) (m : Reader A)
      → ((d : Cursor) → d.position ≤ length d.bytes → Ensures (Moved d n) (m d))
      → MovesFrom c m
  from-MovesFrom n m h = record { at = λ d p q r. Moved-weaken d n (m d) (h d (rw p r)) }

bind-MovesFrom {ℓ κ} :
    {A : Type ℓ} {B : Type κ} {c : Cursor} (m : Reader A) (f : A → Reader B)
    → MovesFrom c m
    → ((a : A) → MovesFrom c (f a))
    → MovesFrom c (m >>= f)
bind-MovesFrom m f h k = record {
  at = λ d p q r.
      then-Moved d 0 (m d) f (h.at d p q r)
        λ a e s. (k a).at e (s.0 ∙ p) (omega arith) (subst (λ bs. e.position ≤ length bs) p s.2);
}

ruleset forward = (pure-MovesFrom, fail-MovesFrom, or_fail-MovesFrom, if-MovesFrom, bind-MovesFrom)

module _ (k : Bool) where
  instance abbrev here : Env
  here = documented k

  module _ (c : Cursor) where
    get_line-MovesFrom : MovesFrom c get_line
    get_line-MovesFrom = from-MovesFrom 2 get_line (λ d _. get_line-Moved k d)

    get_integer-MovesFrom : MovesFrom c get_integer
    get_integer-MovesFrom = from-MovesFrom 2 get_integer (λ d _. get_integer-Moved k d)

    peek_byte-MovesFrom : MovesFrom c peek_byte
    peek_byte-MovesFrom = record {
      at = λ d p q r.
          Ensures-weaken _ (Moved d 0) _ (λ a e s. rw s (refl, omega arith, rw p r))
            (peek_byte-Moved k d);
    }

    skip-MovesFrom : (n : ℕ) → MovesFrom c (skip n)
    skip-MovesFrom n = record {
      at = λ d p q r.
          Ensures-weaken _ (Moved d 0) _ (λ a e s. (s.0, omega arith, s.2 (rw p r)))
            (skip-Moved k n d);
    }

  ruleset readers =
      (forward, get_line-MovesFrom, get_integer-MovesFrom, peek_byte-MovesFrom, skip-MovesFrom)

  check_items-MovesFrom :
      (c : Cursor) (item : Reader (Unit {0})) (n : ℕ)
      → MovesFrom c item
      → MovesFrom c (check_items item n)
  unfolding check_items
  check_items-MovesFrom c item zero h = search forward
  check_items-MovesFrom c item (suc n) h =
      bind-MovesFrom item _ h (λ _. check_items-MovesFrom c item n h)

  check_tagged-MovesFrom :
      (c : Cursor) (items : ℕ → Reader (Unit {0})) (b : ℕ)
      → ((n : ℕ) → MovesFrom c (items n))
      → MovesFrom c (check_tagged items b)
  unfolding check_tagged
  check_tagged-MovesFrom c items b h = search readers depth 12

  pub check_fuel :
      (fuel : ℕ) (c : Cursor)
      → c.position ≤ length c.bytes
      → length c.bytes < fuel + c.position
      → Ensures (Moved c 1) (check fuel c)
  unfolding check
  check_fuel zero c p h = absurd (omega arith)
  check_fuel (suc fuel) c p h = then-Moved c 1 (get_byte c) _ (get_byte-Moved k c) λ b d q.
      (check_tagged-MovesFrom d (check_items (check fuel)) b (λ n.
          check_items-MovesFrom d (check fuel) n (record {
            at = λ g u v w.
                Moved-weaken g 1 (check fuel g)
                  (check_fuel fuel g (rw u w) (rw (u ∙ q.0) (omega arith)));
          }))).at
        d refl (omega arith) (rw q.0 q.2)

  parse_items-MovesFrom :
      (c : Cursor) (item : Reader Frame) (n : ℕ)
      → MovesFrom c item
      → MovesFrom c (parse_items item n)
  unfolding parse_items
  parse_items-MovesFrom c item zero h = search forward
  parse_items-MovesFrom c item (suc n) h = bind-MovesFrom item _ h (λ f.
      bind-MovesFrom (parse_items item n) _ (parse_items-MovesFrom c item n h)
        (λ fs. search forward))

  take_bulk-MovesFrom : (c : Cursor) (n : ℕ) → MovesFrom c (take_bulk n)
  unfolding take_bulk skip
  take_bulk-MovesFrom c n = record { at = λ d p q r. ground arith }

  parse_tagged-MovesFrom :
      (c : Cursor) (items : ℕ → Reader Frames) (b : ℕ)
      → ((n : ℕ) → MovesFrom c (items n))
      → MovesFrom c (parse_tagged items b)
  unfolding parse_tagged
  parse_tagged-MovesFrom c items b h = search (readers, take_bulk-MovesFrom) depth 12

  pub parse_fuel :
      (fuel : ℕ) (c : Cursor)
      → c.position ≤ length c.bytes
      → length c.bytes < fuel + c.position
      → Ensures (Moved c 1) (parse fuel c)
  unfolding parse
  parse_fuel zero c p h = absurd (omega arith)
  parse_fuel (suc fuel) c p h = then-Moved c 1 (get_byte c) _ (get_byte-Moved k c) λ b d q.
      (parse_tagged-MovesFrom d (parse_items (parse fuel)) b (λ n.
          parse_items-MovesFrom d (parse fuel) n (record {
            at = λ g u v w.
                Moved-weaken g 1 (parse fuel g)
                  (parse_fuel fuel g (rw u w) (rw (u ∙ q.0) (omega arith)));
          }))).at
        d refl (omega arith) (rw q.0 q.2)
