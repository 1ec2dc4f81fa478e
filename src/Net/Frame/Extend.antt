-- ===== src/Net/Frame/Extend.antt =====
-- More bytes behind those that a reader saw do not change what it returned: only an incomplete
-- frame may read otherwise once the rest has come.
use opal.Prelude.{
  ℕ, ◌+◌, ◌-◌, ◌≤◌, ◌<◌, ◌≡◌, refl, Bool, ◌||◌, true, false, Option, none, some, [], ◌∷◌, ◌++◌,
  arith, length, length-append, drop-append, take-append, length-drop, drop, ◌==◌, if◌then◌else◌,
  Bool-cases, Option-cases, ◌⊎◌, inl, inr, subst, dec_le, drop-eq-nil,
}
use opal.Prelude.Int.{ℤ, pos}
use opal.Env.{Env, Bytes, Cursor, documented, rest}
use opal.Net.Frame.Data.{incomplete, bad_encoding, not_integer, not_utf8, Error}
use opal.Net.Frame.Reader.{
  Outcome, Reader, ok, err, panic, no_fuel, continue, continue_assoc, ◌>>=◌, get_byte, peek_byte,
  get_line, line_loop, get_integer, skip, or_fail, pure, fail, slice, get_sign, digits_of,
  finish_integer, unchecked_loop, checked_loop, shift_unchecked, shift_checked, ascii_to_i64,
}
use opal.Net.Frame.Progress.{Ensures, Moved, get_sign-Moved}

-- The cursor with more bytes behind.
abbrev pub extend : Bytes → Cursor → Cursor
extend more c = record c { bytes = c.bytes ++ more }

abbrev pub Extends {ℓ} : {A : Type ℓ} → Bytes → Outcome A → Outcome A → Type ℓ
Extends more (ok a c) r = r ≡ ok a (extend more c)
Extends more (err incomplete) r = Unit
Extends more (err bad_encoding) r = r ≡ err bad_encoding
Extends more (err (not_integer bs)) r = r ≡ err (not_integer bs)
Extends more (err (not_utf8 bs)) r = r ≡ err (not_utf8 bs)
Extends more panic r = Unit
Extends more no_fuel r = Unit

pub record IsStable {ℓ} {A : Type ℓ} (more : Bytes) (m : Reader A) : Type ℓ where
  pub at : (c : Cursor) → Extends more (m c) (m (extend more c))

Extends-err {ℓ} : (A : Type ℓ) (more : Bytes) (x : Error) → Extends {A = A} more (err x) (err x)
Extends-err A more incomplete = tt
Extends-err A more bad_encoding = refl
Extends-err A more (not_integer bs) = refl
Extends-err A more (not_utf8 bs) = refl

module _ {ℓ} {A : Type ℓ} {more : Bytes} where
  pub pure-IsStable : (a : A) → IsStable more (pure a)
  pure-IsStable a = record { at = λ c. refl }

  pub fail-IsStable : (x : Error) → IsStable {A = A} more (fail x)
  fail-IsStable x = record { at = λ c. Extends-err A more x }

  pub or_fail-IsStable : (o : Option A) (x : Error) → IsStable more (or_fail o x)
  or_fail-IsStable none x = record { at = λ c. Extends-err A more x }
  or_fail-IsStable (some a) x = record { at = λ c. refl }

  pub if-IsStable :
      (b : Bool) (m n : Reader A)
      → IsStable more m
      → IsStable more n
      → IsStable more (if b then m else n)
  if-IsStable true m n h k = h
  if-IsStable false m n h k = k

module _ {ℓ κ} {A : Type ℓ} {B : Type κ} (more : Bytes) where
  Extends-bind :
      (o o' : Outcome A) (f g : A → Reader B)
      → Extends more o o'
      → ((a : A) (d : Cursor) → o ≡ ok a d → Extends more (f a d) (g a (extend more d)))
      → Extends more (continue o f) (continue o' g)
  Extends-bind (ok a c) o' f g h k = rw h (k a c refl)
  Extends-bind (err incomplete) o' f g h k = tt
  Extends-bind (err bad_encoding) o' f g h k = rw h
  Extends-bind (err (not_integer bs)) o' f g h k = rw h
  Extends-bind (err (not_utf8 bs)) o' f g h k = rw h
  Extends-bind panic o' f g h k = tt
  Extends-bind no_fuel o' f g h k = tt

  pub bind-IsStable :
      (m : Reader A) (f : A → Reader B)
      → IsStable more m
      → ((a : A) → IsStable more (f a))
      → IsStable more (m >>= f)
  bind-IsStable m f h k = record {
    at = λ c. Extends-bind (m c) (m (extend more c)) f f (h.at c) (λ a d _. (k a).at d);
  }

module _ (k : Bool) (more : Bytes) where
  instance abbrev pub here : Env
  here = documented k

  pub length-extend : (c : Cursor) → length (extend more c).bytes ≡ length c.bytes + length more
  length-extend c = length-append c.bytes more

  pub rest-extend :
      (c : Cursor) → c.position ≤ length c.bytes → rest (extend more c) ≡ rest c ++ more
  rest-extend c h = drop-append c.position c.bytes more h

  rest-behind : (c : Cursor) → ¬ (c.position ≤ length c.bytes) → rest c ≡ []
  rest-behind c h = drop-eq-nil c.position c.bytes (omega arith)

  pub slice-extend :
      (c : Cursor) (start i : ℕ)
      → start ≤ length c.bytes
      → i ≤ length c.bytes
      → slice (extend more c) start i ≡ slice c start i
  slice-extend c start i h h' =
      let e = drop-append start c.bytes more (omega arith) in
      rw e (
        take-append (i - start) (drop start c.bytes) more
          (omega (arith, length-drop start c.bytes)))

  pub get_byte-IsStable : IsStable more get_byte
  unfolding get_byte
  get_byte-IsStable = record {
    at = λ c. ground (arith, length-extend c, rest-extend c, length-drop c.position c.bytes);
  }

  pub peek_byte-IsStable : IsStable more peek_byte
  unfolding peek_byte
  peek_byte-IsStable = record {
    at = λ c. ground (arith, length-extend c, rest-extend c, length-drop c.position c.bytes);
  }

  pub skip-IsStable : (n : ℕ) → 0 < n → IsStable more (skip n)
  unfolding skip
  skip-IsStable n h = record { at = λ c. ground (arith, length-extend c) }

  line_loop-Extends :
      (end : ℕ) (bs : Bytes) (i : ℕ) (c : Cursor)
      → c.position ≤ i
      → end + 1 ≡ length c.bytes
      → Extends more
          (line_loop c.position end bs i c)
          (line_loop c.position (end + length more) (bs ++ more) i (extend more c))
  unfolding line_loop
  line_loop-Extends end [] i c p q = ground arith
  line_loop-Extends end (b ∷ bs) i c p q =
      ground
        (arith, length-extend c, slice-extend c c.position i, line_loop-Extends end bs (i + 1) c)

  pub get_line-IsStable : IsStable more get_line
  unfolding get_line
  get_line-IsStable = record {
    at = λ c. elim (dec_le c.position (length c.bytes)) [
      | yes h ↦ ground (
        arith,
        length-extend c,
        rest-extend c h,
        line_loop-Extends (length c.bytes - 1) (rest c) c.position c,
      )
      | no h ↦ rw (rest-behind c h) (unfold line_loop in ground (arith, length-extend c))
    ];
  }

  -- What a loop over digits leaves: it stopped at the last byte that had come or behind it, or with
  -- more bytes it leaves the same.
  abbrev LoopExtends : {X : Type 0} → ℕ → Outcome (Bytes × ℕ × X) → Outcome (Bytes × ℕ × X) → Type 0
  LoopExtends end (ok ([], idx, x) c) r = Unit
  LoopExtends end (ok (b ∷ bs, idx, x) c) r =
      (idx ≡ end)
      ⊎ (r ≡ ok (b ∷ (bs ++ more), idx, x) (extend more c))
        × (length (b ∷ bs) + idx ≡ end + 1)
        × (end + 1 ≡ length c.bytes)
  LoopExtends end (err x) r = ⊥
  LoopExtends end panic r = Unit
  LoopExtends end no_fuel r = Unit

  unchecked_loop-LoopExtends :
      (s : Bool) (end : ℕ) (bs : Bytes) (i : ℕ) (num : ℤ) (c : Cursor)
      → length bs + i ≡ end + 1
      → end + 1 ≡ length c.bytes
      → LoopExtends end
          (unchecked_loop s end bs i num c)
          (unchecked_loop s (end + length more) (bs ++ more) i num (extend more c))
  unfolding unchecked_loop
  unchecked_loop-LoopExtends s end [] i num c p q = ground arith
  unchecked_loop-LoopExtends s end (b ∷ bs) i num c p q = elim (Option-cases (ascii_to_i64 b)) [
    | inl e ↦ rw e (ground arith)
    | inr (n, e) ↦ rw e (elim (Bool-cases (i == end || i == 18)) [
      | inl stop ↦ rw stop (ground arith)
      | inr go ↦ rw go (elim (Option-cases (shift_unchecked s num n)) [
        | inl f ↦ rw f tt
        | inr (m, f) ↦ rw f (ground (arith, unchecked_loop-LoopExtends s end bs (i + 1) m c))
      ])
    ])
  ]

  checked_loop-LoopExtends :
      (s : Bool) (end : ℕ) (bs : Bytes) (i : ℕ) (num : Option ℤ) (c : Cursor)
      → length bs + i ≡ end + 1
      → end + 1 ≡ length c.bytes
      → LoopExtends end
          (checked_loop s end bs i num c)
          (checked_loop s (end + length more) (bs ++ more) i num (extend more c))
  unfolding checked_loop
  checked_loop-LoopExtends s end [] i num c p q = ground arith
  checked_loop-LoopExtends s end (b ∷ bs) i num c p q = elim (Option-cases (ascii_to_i64 b)) [
    | inl e ↦ rw e (ground arith)
    | inr (n, e) ↦
        rw e (ground (arith, checked_loop-LoopExtends s end bs (i + 1) (shift_checked s num n) c))
  ]

  finish-Extends :
      (init start end : ℕ) (o o' : Outcome (Bytes × ℕ × Option ℤ))
      → init ≤ end + 1
      → LoopExtends end o o'
      → Extends more
          (continue o (finish_integer init start end))
          (continue o' (finish_integer init start (end + length more)))
  unfolding finish_integer
  finish-Extends init start end (ok ([], idx, num) c) o' p h = ground arith
  finish-Extends init start end (ok (b ∷ bs, idx, num) c) o' p h =
      ground (arith, slice-extend c init (idx + 1), slice-extend c init idx, length-extend c)
  finish-Extends init start end (err x) o' p h = absurd h
  finish-Extends init start end panic o' p h = tt
  finish-Extends init start end no_fuel o' p h = tt

  checked-Extends :
      (s : Bool) (end : ℕ) (o o' : Outcome (Bytes × ℕ × ℤ))
      → LoopExtends end o o'
      → LoopExtends end
          (continue o (λ u. checked_loop s end u.0 u.1 (some u.2)))
          (continue o' (λ u. checked_loop s (end + length more) u.0 u.1 (some u.2)))
  checked-Extends s end (ok ([], idx, num) c) o' h = unfold checked_loop in ground arith
  checked-Extends s end (ok (b ∷ bs, idx, num) c) o' (inl h) = unfold checked_loop in ground arith
  checked-Extends s end (ok (b ∷ bs, idx, num) c) o' (inr h) =
      rw h.0 (checked_loop-LoopExtends s end (b ∷ bs) idx (some num) c h.1 h.2)
  checked-Extends s end (err x) o' h = absurd h
  checked-Extends s end panic o' h = tt
  checked-Extends s end no_fuel o' h = tt

  digits_of-Extends :
      (s : Bool) (init start end : ℕ) (bs : Bytes) (c : Cursor)
      → init ≤ end + 1
      → length bs + start ≡ end + 1
      → end + 1 ≡ length c.bytes
      → Extends more
          (digits_of s init start bs end c)
          (digits_of s init start (bs ++ more) (end + length more) (extend more c))
  unfolding digits_of
  digits_of-Extends s init start end bs c p q r =
      let o = unchecked_loop s end bs start (pos 0) c in
      let o' = unchecked_loop s (end + length more) (bs ++ more) start (pos 0) (extend more c) in
      rw
        (← continue_assoc o (λ u. checked_loop s end u.0 u.1 (some u.2))
          (finish_integer init start end))
        (rw
          (← continue_assoc o' (λ u. checked_loop s (end + length more) u.0 u.1 (some u.2))
            (finish_integer init start (end + length more)))
          (finish-Extends init start end _ _ p
            (checked-Extends s end o o' (unchecked_loop-LoopExtends s end bs start (pos 0) c q r))))

  get_sign-IsStable : IsStable more get_sign
  unfolding get_sign
  get_sign-IsStable = record {
    at = λ c.
        unfold peek_byte in
        ground (arith, length-extend c, rest-extend c, length-drop c.position c.bytes);
  }

  get_sign-Ensures : (c : Cursor) → Ensures (λ _ d. 0 < length d.bytes) (get_sign c)
  unfolding get_sign peek_byte
  get_sign-Ensures c = ground arith

  pub get_integer-IsStable : IsStable more get_integer
  unfolding get_integer
  get_integer-IsStable = record {
    at = λ c.
        Extends-bind more (get_sign c) (get_sign (extend more c)) _ _ (get_sign-IsStable.at c)
          λ s d e.
            let (same, forward, inside) = subst (Ensures (Moved c 0)) e (get_sign-Moved k c) in
            let nonempty : 0 < length d.bytes =
              subst (Ensures (λ _ d. 0 < length d.bytes)) e (get_sign-Ensures c) in
            let within : d.position ≤ length d.bytes = rw same inside in
            let last : length (d.bytes ++ more) - 1 ≡ length d.bytes - 1 + length more =
              omega (arith, length-extend d) in
            rw (rest-extend d within) (
              rw last (
                digits_of-Extends s c.position d.position (length d.bytes - 1) (rest d) d
                  (omega arith) (omega (arith, length-drop d.position d.bytes)) (omega arith)));
  }
