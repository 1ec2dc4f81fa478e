-- ===== src/Net/Frame/Agree.antt =====
-- The checker and the parser read the same frame: where the checker passes, the parser ends at the
-- same byte or finds a late error, and the parser accepts nothing that the checker refuses.
use opal.Prelude.{
  ℕ, zero, suc, ◌+◌, ◌-◌, ◌≤◌, ◌<◌, ◌≡◌, refl, Bool, true, false, [], ◌∷◌, arith, length,
  length-take, length-drop, drop, ◌==◌, if◌then◌else◌, subst, sym, dec_lt,
}
use opal.Prelude.Int.{pos, negsuc}
use opal.Env.{Env, Bytes, Cursor, documented, IsDocumented, for_documented}
use opal.Net.Frame.Data.{
  Frame, Frames, incomplete, bad_encoding, not_integer, not_utf8, Error, null, array, cons,
  simple_string, error,
}
use opal.Net.Frame.Reader.{
  Outcome, Reader, ok, err, panic, no_fuel, continue, ◌>>=◌, get_byte, peek_byte, get_line,
  line_loop, get_integer, skip, or_fail, pure, fail, slice,
}
use opal.Net.Frame.Parse.{
  check, check_tagged, check_items, check_null, check_bulk, rounds, to_usize, parse, parse_tagged,
  parse_items, parse_bulk, parse_null, parse_array, take_bulk, from_utf8, is_minus_one,
}

-- The errors that the parser may find behind the checker.
abbrev pub IsLate : Error → Type 0
IsLate (not_integer _) = ⊥
IsLate incomplete = Unit
IsLate bad_encoding = Unit
IsLate (not_utf8 _) = Unit

abbrev pub Agrees : {A B : Type 0} → Outcome A → Outcome B → Type 0
Agrees (ok a c) (ok b d) = d ≡ c
Agrees (ok a c) (err x) = IsLate x
Agrees (ok a c) panic = ⊥
Agrees (ok a c) no_fuel = ⊥
Agrees (err x) (ok b d) = ⊥
Agrees (err x) _ = Unit
Agrees panic (ok b d) = ⊥
Agrees panic _ = Unit
Agrees no_fuel (ok b d) = ⊥
Agrees no_fuel _ = Unit

Agrees-late :
    {A : Type 0} (B : Type 0) (o : Outcome A) (x : Error) → IsLate x → Agrees {B = B} o (err x)
Agrees-late B (ok a c) x h = h
Agrees-late B (err y) x h = tt
Agrees-late B panic x h = tt
Agrees-late B no_fuel x h = tt

module _ {A B C D : Type 0} where
  Agrees-bind :
      (o : Outcome A) (p : Outcome B) (f : A → Reader C) (g : B → Reader D)
      → Agrees o p
      → ((a : A) (b : B) (d : Cursor) → Agrees (f a d) (g b d))
      → Agrees (continue o f) (continue p g)
  Agrees-bind (ok a c) (ok b d) f g h k = subst (λ e. Agrees (f a c) (g b e)) (sym h) (k a b c)
  Agrees-bind (ok a c) (err x) f g h k = Agrees-late D (f a c) x h
  Agrees-bind (ok a c) panic f g h k = absurd h
  Agrees-bind (ok a c) no_fuel f g h k = absurd h
  Agrees-bind (err y) (ok b d) f g h k = absurd h
  Agrees-bind (err y) _ f g h k = tt
  Agrees-bind panic (ok b d) f g h k = absurd h
  Agrees-bind panic _ f g h k = tt
  Agrees-bind no_fuel (ok b d) f g h k = absurd h
  Agrees-bind no_fuel _ f g h k = tt

-- After the same reader.
Agrees-after :
    {A B C : Type 0} (o : Outcome A) (f : A → Reader B) (g : A → Reader C)
    → ((a : A) (d : Cursor) → Agrees (f a d) (g a d))
    → Agrees (continue o f) (continue o g)
Agrees-after (ok a c) f g k = k a c
Agrees-after (err x) f g k = tt
Agrees-after panic f g k = tt
Agrees-after no_fuel f g k = tt

Agrees-map :
    {A B C : Type 0} (o : Outcome A) (p : Outcome B) (f : B → C)
    → Agrees o p
    → Agrees o (continue p (λ b. pure (f b)))
Agrees-map (ok a c) (ok b d) f h = h
Agrees-map (err x) (ok b d) f h = h
Agrees-map panic (ok b d) f h = h
Agrees-map no_fuel (ok b d) f h = h
Agrees-map (ok a c) (err x) f h = h
Agrees-map (ok a c) panic f h = h
Agrees-map (ok a c) no_fuel f h = h
Agrees-map (err y) (err x) f h = h
Agrees-map (err y) panic f h = h
Agrees-map (err y) no_fuel f h = h
Agrees-map panic (err x) f h = h
Agrees-map panic panic f h = h
Agrees-map panic no_fuel f h = h
Agrees-map no_fuel (err x) f h = h
Agrees-map no_fuel panic f h = h
Agrees-map no_fuel no_fuel f h = h

Agrees-if :
    {A B : Type 0} (b : Bool) (m m' : Reader A) (n n' : Reader B) (c : Cursor)
    → Agrees (m c) (n c)
    → Agrees (m' c) (n' c)
    → Agrees ((if b then m else m') c) ((if b then n else n') c)
Agrees-if true m m' n n' c h h' = h
Agrees-if false m m' n n' c h h' = h'

-- What `get_line` leaves: a line, of which the cursor lies two bytes behind the end.
abbrev pub ReadsLine : Cursor → Outcome Bytes → Type 0
ReadsLine c (ok l d) =
    (d.bytes ≡ c.bytes) × (d.position ≡ c.position + length l + 2) × (d.position ≤ length c.bytes)
ReadsLine c (err x) = IsLate x
ReadsLine c panic = ⊥
ReadsLine c no_fuel = ⊥

length-is_minus_one : (l : Bytes) → is_minus_one l ≡ true → length l ≡ 2
length-is_minus_one [] h = cc
length-is_minus_one (a ∷ []) h = cc
length-is_minus_one (a ∷ b ∷ []) h = refl
length-is_minus_one (a ∷ b ∷ c ∷ l) h = cc

module _ (k : Bool) where
  instance abbrev here : Env
  here = documented k

  length-slice :
      (c : Cursor) (start i : ℕ) → i ≤ length c.bytes → length (slice c start i) ≡ i - start
  length-slice c start i h =
      omega (arith, length-take (i - start) (drop start c.bytes), length-drop start c.bytes)

  line_loop-ReadsLine :
      (end : ℕ) (bs : Bytes) (i : ℕ) (c : Cursor)
      → c.position ≤ i
      → end + 1 ≡ length c.bytes
      → length bs ≡ length c.bytes - i
      → ReadsLine c (line_loop c.position end bs i c)
  unfolding line_loop
  line_loop-ReadsLine end [] i c p q r = ground arith
  line_loop-ReadsLine end (b ∷ bs) i c p q r =
      ground (arith, length-slice c c.position i, line_loop-ReadsLine end bs (i + 1) c)

  get_line-ReadsLine : (c : Cursor) → 0 < length c.bytes → ReadsLine c (get_line c)
  unfolding get_line
  get_line-ReadsLine c h = ground (
    arith,
    length-drop c.position c.bytes,
    line_loop-ReadsLine (length c.bytes - 1) (drop c.position c.bytes) c.position c,
  )

  null-after :
      (c : Cursor) (o : Outcome Bytes)
      → ReadsLine c o
      → Agrees
          (check_null c)
          (continue o (λ l. if is_minus_one l then pure null else fail bad_encoding))
  unfolding check_null skip
  null-after c (ok l d) h = ground (arith, length-is_minus_one l)
  null-after c (err x) h = Agrees-late Frame (skip 4 c) x h
  null-after c panic h = absurd h
  null-after c no_fuel h = absurd h

  null-Agrees : (c : Cursor) → Agrees (check_null c) (parse_null c)
  unfolding parse_null
  null-Agrees c = elim (dec_lt 0 (length c.bytes)) [
    | yes h ↦ null-after c (get_line c) (get_line-ReadsLine c h)
    | no h ↦ unfold check_null skip get_line in ground arith
  ]

  take-Agrees : (n : ℕ) (c : Cursor) → Agrees (skip (n + 2) c) (take_bulk n c)
  unfolding skip take_bulk
  take-Agrees n c = ground arith

  bulk-Agrees : (c : Cursor) → Agrees (check_bulk c) (parse_bulk c)
  unfolding check_bulk parse_bulk
  bulk-Agrees c =
      Agrees-after (get_integer c) _ _
        λ n d. Agrees-after (or_fail (to_usize n) bad_encoding d) _ _ λ m e. take-Agrees m e

  items-Agrees :
      (f : Reader (Unit {0})) (g : Reader Frame) (n : ℕ) (c : Cursor)
      → ((d : Cursor) → Agrees (f d) (g d))
      → Agrees (check_items f n c) (parse_items g n c)
  unfolding check_items parse_items
  items-Agrees f g zero c h = refl
  items-Agrees f g (suc n) c h = Agrees-bind (f c) (g c) _ _ (h c) λ u fr d.
      Agrees-map (check_items f n d) (parse_items g n d) (cons fr) (items-Agrees f g n d h)

  line-Agrees :
      (make : Bytes → Frame) (c : Cursor)
      → Agrees {A = Unit {0}}
          ((get_line >>= λ _. pure tt) c)
          ((do l ← get_line; s ← from_utf8 l; pure (make s)) c)
  unfolding from_utf8
  line-Agrees make c = Agrees-after (get_line c) _ _ λ l d. ground arith

  array-Agrees :
      (f : ℕ → Reader (Unit {0})) (g : ℕ → Reader Frames) (c : Cursor)
      → ((n : ℕ) (d : Cursor) → Agrees (f n d) (g n d))
      → Agrees ((get_integer >>= λ n. f (rounds n)) c) (parse_array g c)
  unfolding parse_array
  array-Agrees f g c h =
      Agrees-after (get_integer c) (λ n. f (rounds n))
        (λ n. or_fail (to_usize n) bad_encoding >>= λ m. g m >>= λ fs. pure (array fs))
        (elim [
          | pos n ↦ λ d. Agrees-map (f n d) (g n d) array (h n d)
          | negsuc n ↦ λ d. Agrees-late Frame (f 0 d) bad_encoding tt
        ])

  tagged-Agrees :
      (f : ℕ → Reader (Unit {0})) (g : ℕ → Reader Frames) (b : ℕ) (c : Cursor)
      → ((n : ℕ) (d : Cursor) → Agrees (f n d) (g n d))
      → Agrees (check_tagged f b c) (parse_tagged g b c)
  unfolding check_tagged parse_tagged
  tagged-Agrees f g b c h = Agrees-if (b == b'+') _ _ _ _ c (line-Agrees simple_string c) (
      Agrees-if (b == b'-') _ _ _ _ c (line-Agrees error c) (
        Agrees-if (b == b':') _ _ _ _ c (Agrees-after (get_integer c) _ _ (λ x d. refl)) (
          Agrees-if (b == b'$') _ _ _ _ c
            (Agrees-after (peek_byte c) _ _
              (λ s d. Agrees-if (s == b'-') _ _ _ _ d (null-Agrees d) (bulk-Agrees d)))
            (Agrees-if (b == b'*') _ _ _ _ c (array-Agrees f g c h) tt))))

  check-Agrees : (fuel : ℕ) (c : Cursor) → Agrees (check fuel c) (parse fuel c)
  unfolding check parse
  check-Agrees zero c = tt
  check-Agrees (suc fuel) c = Agrees-after (get_byte c) _ _ λ b d.
      tagged-Agrees (check_items (check fuel)) (parse_items (parse fuel)) b d
        λ n e. items-Agrees (check fuel) (parse fuel) n e (check-Agrees fuel)

-- The checker and the parser at the same fuel: where the checker passes, the parser returns a frame
-- and leaves the cursor where the checker did, or it fails with an error that is not about an
-- integer; where the checker fails or panics, the parser returns no frame.
pub check-Agrees-parse :
    ⦃e : Env⦄ (laws : IsDocumented e) (fuel : ℕ) (c : Cursor) → Agrees (check fuel c) (parse fuel c)
check-Agrees-parse ⦃e⦄ laws fuel c =
    for_documented (λ e. Agrees (check ⦃e = e⦄ fuel c) (parse ⦃e = e⦄ fuel c))
      (λ k. check-Agrees k fuel c) laws
