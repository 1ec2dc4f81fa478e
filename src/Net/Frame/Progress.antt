-- ===== src/Net/Frame/Progress.antt =====
-- Every reader keeps the bytes and moves the cursor forward; the checker and the parser never run
-- out of fuel when it exceeds the bytes that are left.
use opal.Prelude.{
  ℕ, ◌+◌, ◌-◌, ◌≤◌, ◌≡◌, refl, Bool, Option, none, some, [], ◌∷◌, arith, length, drop, ◌==◌,
  Bool-cases, Option-cases, ◌||◌, ◌∙◌, subst, inl, inr,
}
use opal.Prelude.Int.{ℤ, pos}
use opal.Env.{Env, Bytes, Cursor, documented}
use opal.Net.Frame.Reader.{
  Outcome, Reader, ok, err, panic, no_fuel, continue, get_byte, peek_byte, get_line, line_loop,
  get_integer, skip, or_panic, get_sign, digits_of, finish_integer, unchecked_loop, checked_loop,
  shift_unchecked, shift_checked, ascii_to_i64,
}

-- What holds of the value and the cursor, if the reader returns; it does not run out of fuel.
abbrev pub Ensures {ℓ} : {A : Type ℓ} → (A → Cursor → Type 0) → Outcome A → Type 0
Ensures P (ok a c) = P a c
Ensures P (err x) = Unit
Ensures P panic = Unit
Ensures P no_fuel = ⊥

-- The same bytes, at least `n` bytes further on.
abbrev pub Moved {ℓ} : {A : Type ℓ} → Cursor → ℕ → A → Cursor → Type 0
Moved c n a c' =
    (c'.bytes ≡ c.bytes) × (c.position + n ≤ c'.position) × (c'.position ≤ length c.bytes)

module _ {ℓ κ} {A : Type ℓ} {B : Type κ} where
  pub Ensures-bind :
      (P : A → Cursor → Type 0) (Q : B → Cursor → Type 0) (o : Outcome A) (f : A → Reader B)
      → Ensures P o
      → ((a : A) (c : Cursor) → P a c → Ensures Q (f a c))
      → Ensures Q (continue o f)
  Ensures-bind P Q (ok a c) f h k = k a c h
  Ensures-bind P Q (err x) f h k = tt
  Ensures-bind P Q panic f h k = tt
  Ensures-bind P Q no_fuel f h k = h

pub Ensures-weaken {ℓ} :
    {A : Type ℓ} (P Q : A → Cursor → Type 0) (o : Outcome A)
    → ((a : A) (c : Cursor) → P a c → Q a c)
    → Ensures P o
    → Ensures Q o
Ensures-weaken P Q (ok a c) k h = k a c h
Ensures-weaken P Q (err x) k h = tt
Ensures-weaken P Q panic k h = tt
Ensures-weaken P Q no_fuel k h = h

module _ (k : Bool) where
  instance abbrev pub env : Env
  env = documented k

  pub get_byte-Moved : (c : Cursor) → Ensures (Moved c 1) (get_byte c)
  unfolding get_byte
  get_byte-Moved c = ground arith

  line_loop-Moved :
      (start end : ℕ) (bs : Bytes) (i : ℕ) (c : Cursor)
      → c.position ≡ start
      → start ≤ i
      → end + 1 ≡ length c.bytes
      → Ensures (Moved c 2) (line_loop start end bs i c)
  unfolding line_loop
  line_loop-Moved start end [] i c p q r = ground arith
  line_loop-Moved start end (b ∷ bs) i c p q r =
      ground (arith, line_loop-Moved start end bs (i + 1) c p)

  pub peek_byte-Moved : (c : Cursor) → Ensures (λ _ c'. c' ≡ c) (peek_byte c)
  unfolding peek_byte
  peek_byte-Moved c = ground arith

  pub skip-Moved :
      (n : ℕ) (c : Cursor)
      → Ensures
          (λ _ c'.
            (c'.bytes ≡ c.bytes)
            × (c'.position ≡ c.position + n)
            × (c.position ≤ length c.bytes → c'.position ≤ length c.bytes))
          (skip n c)
  unfolding skip
  skip-Moved n c = ground arith

  pub get_line-Moved : (c : Cursor) → Ensures (Moved c 2) (get_line c)
  unfolding get_line
  get_line-Moved c = ground (
    arith,
    line_loop-Moved c.position (length c.bytes - 1) (drop c.position c.bytes) c.position c refl,
  )

  pub get_sign-Moved : (c : Cursor) → Ensures (Moved c 0) (get_sign c)
  unfolding get_sign
  get_sign-Moved c = ground arith

  or_panic-Moved : (o : Option ℤ) (c : Cursor) → Ensures (λ _ c'. c' ≡ c) (or_panic o c)
  or_panic-Moved none c = tt
  or_panic-Moved (some x) c = refl

  unchecked_loop-Moved :
      (s : Bool) (end : ℕ) (bs : Bytes) (i : ℕ) (num : ℤ) (c : Cursor)
      → Ensures (λ u c'. (c' ≡ c) × (i ≤ u.1)) (unchecked_loop s end bs i num c)
  unfolding unchecked_loop
  unchecked_loop-Moved s end [] i num c = ground arith
  unchecked_loop-Moved s end (b ∷ bs) i num c = elim (Bool-cases (i == end || i == 18)) [
    | inl stop ↦ rw stop (refl, omega arith)
    | inr go ↦ rw go (elim (Option-cases (ascii_to_i64 b)) [
      | inl e ↦ rw e (refl, omega arith)
      | inr (n, e) ↦ rw e (
          Ensures-bind (λ _ c'. c' ≡ c) _ (or_panic (shift_unchecked s num n) c)
            (unchecked_loop s end bs (i + 1)) (or_panic-Moved (shift_unchecked s num n) c)
            (λ m c' p.
              Ensures-weaken _ _ (unchecked_loop s end bs (i + 1) m c')
                (λ u d q. (q.0 ∙ p, omega arith)) (unchecked_loop-Moved s end bs (i + 1) m c')))
    ])
  ]

  checked_loop-Moved :
      (s : Bool) (end : ℕ) (bs : Bytes) (i : ℕ) (num : Option ℤ) (c : Cursor)
      → Ensures (λ u c'. (c' ≡ c) × (i ≤ u.1)) (checked_loop s end bs i num c)
  unfolding checked_loop
  checked_loop-Moved s end [] i num c = ground arith
  checked_loop-Moved s end (b ∷ bs) i num c = elim (Option-cases (ascii_to_i64 b)) [
    | inl e ↦ rw e (ground arith)
    | inr (n, e) ↦
        rw e (ground (arith, checked_loop-Moved s end bs (i + 1) (shift_checked s num n) c))
  ]

  finish_integer-Moved :
      (init start end : ℕ) (d : Bytes × ℕ × Option ℤ) (c : Cursor)
      → start ≤ d.1
      → start ≡ c.position
      → Ensures (Moved c 2) (finish_integer init start end d c)
  unfolding finish_integer
  finish_integer-Moved init start end ([], idx, num) c p q = ground arith
  finish_integer-Moved init start end (b ∷ bs, idx, num) c p q = ground arith

  digits_of-Moved :
      (s : Bool) (init end : ℕ) (bs : Bytes) (c : Cursor)
      → Ensures (Moved c 2) (digits_of s init c.position bs end c)
  unfolding digits_of
  digits_of-Moved s init end bs c =
      Ensures-bind _ _ (unchecked_loop s end bs c.position (pos 0) c) _
        (unchecked_loop-Moved s end bs c.position (pos 0) c)
        λ u c₁ p.
          Ensures-bind _ _ (checked_loop s end u.0 u.1 (some u.2) c₁) _
            (checked_loop-Moved s end u.0 u.1 (some u.2) c₁)
            λ d c₂ q.
              rw (q.0 ∙ p.0) (finish_integer-Moved init c.position end d c (omega arith) refl)

  pub get_integer-Moved : (c : Cursor) → Ensures (Moved c 2) (get_integer c)
  unfolding get_integer
  get_integer-Moved c = Ensures-bind _ _ (get_sign c) _ (get_sign-Moved c) λ s c' m.
      Ensures-weaken (Moved c' 2) (Moved c 2) _
        (λ x d q. (q.0 ∙ m.0, omega arith, subst (λ bs. d.position ≤ length bs) m.0 q.2))
        (digits_of-Moved s c.position (length c'.bytes - 1) (drop c'.position c'.bytes) c')
