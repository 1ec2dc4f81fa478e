-- ===== src/Net/Frame/Deeper.antt =====
-- More fuel does not change what the checker returns.
use opal.Prelude.{ℕ, zero, suc, ◌+◌, ◌≡◌, refl, Bool, true, false, arith, if◌then◌else◌}
use opal.Env.{Env, Cursor}
use opal.Net.Frame.Reader.{Outcome, Reader, ok, err, panic, no_fuel, continue, ◌>>=◌, get_byte}
use opal.Net.Frame.Parse.{check, check_tagged, check_items}

-- Without fuel anything may follow, else the same.
abbrev pub Same {ℓ} : {A : Type ℓ} → Outcome A → Outcome A → Type ℓ
Same no_fuel o = Unit
Same (ok a c) o = o ≡ ok a c
Same (err x) o = o ≡ err x
Same panic o = o ≡ panic

record IsDeeper {ℓ} {A : Type ℓ} (m n : Reader A) : Type ℓ where
  at : (c : Cursor) → Same (m c) (n c)

Same-refl {ℓ} : {A : Type ℓ} (o : Outcome A) → Same o o
Same-refl (ok a c) = refl
Same-refl (err x) = refl
Same-refl panic = refl
Same-refl no_fuel = tt

module _ {ℓ} {A : Type ℓ} where
  same-IsDeeper : (m : Reader A) → IsDeeper m m
  same-IsDeeper m = record { at = λ c. Same-refl (m c) }

  if-IsDeeper :
      (b : Bool) (m m' n n' : Reader A)
      → IsDeeper m m'
      → IsDeeper n n'
      → IsDeeper (if b then m else n) (if b then m' else n')
  if-IsDeeper true m m' n n' h k = h
  if-IsDeeper false m m' n n' h k = k

module _ {ℓ κ} {A : Type ℓ} {B : Type κ} where
  Same-bind :
      (o o' : Outcome A) (f g : A → Reader B)
      → Same o o'
      → ((a : A) → IsDeeper (f a) (g a))
      → Same (continue o f) (continue o' g)
  Same-bind (ok a c) o' f g h k = rw h ((k a).at c)
  Same-bind (err x) o' f g h k = rw h refl
  Same-bind panic o' f g h k = rw h refl
  Same-bind no_fuel o' f g h k = tt

  bind-IsDeeper :
      (m m' : Reader A) (f g : A → Reader B)
      → IsDeeper m m'
      → ((a : A) → IsDeeper (f a) (g a))
      → IsDeeper (m >>= f) (m' >>= g)
  bind-IsDeeper m m' f g h k = record { at = λ c. Same-bind (m c) (m' c) f g (h.at c) k }

ruleset deeper = (same-IsDeeper, if-IsDeeper, bind-IsDeeper)

module _ ⦃e : Env⦄ where
  items-IsDeeper :
      (m m' : Reader (Unit {0})) (n : ℕ)
      → IsDeeper m m'
      → IsDeeper (check_items m n) (check_items m' n)
  unfolding check_items
  items-IsDeeper m m' zero h = same-IsDeeper _
  items-IsDeeper m m' (suc n) h = bind-IsDeeper m m' _ _ h (λ _. items-IsDeeper m m' n h)

  tagged-IsDeeper :
      (f g : ℕ → Reader (Unit {0})) (b : ℕ)
      → ((n : ℕ) → IsDeeper (f n) (g n))
      → IsDeeper (check_tagged f b) (check_tagged g b)
  unfolding check_tagged
  tagged-IsDeeper f g b h = search deeper depth 12

  check-IsDeeper : (n m : ℕ) → IsDeeper (check n) (check (n + m))
  unfolding check
  check-IsDeeper zero m = record { at = λ c. tt }
  check-IsDeeper (suc n) m =
      let z : suc n + m ≡ suc (n + m) = omega arith in
      rw z (
        bind-IsDeeper get_byte get_byte _ _ (same-IsDeeper get_byte) λ b.
          tagged-IsDeeper (check_items (check n)) (check_items (check (n + m))) b
            λ i. items-IsDeeper (check n) (check (n + m)) i (check-IsDeeper n m))

  -- What the checker returns at some fuel it returns with more.
  pub check-Same : (n m : ℕ) (c : Cursor) → Same (check n c) (check (n + m) c)
  check-Same n m c = (check-IsDeeper n m).at c
