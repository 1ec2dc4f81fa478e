-- ===== src/Net/Frame/Decimal.antt =====
-- How `write!` prints an `i64` in decimal, and what the digits are worth.
use opal.Prelude.{
  ℕ, zero, suc, ◌+◌, ◌-◌, ◌*◌, ◌/◌, ◌%◌, ◌≤◌, ◌<◌, ◌≡◌, refl, [], ◌∷◌, ◌++◌, arith, ltb,
  if◌then◌else◌, length, length-append, Bool-cases, inl, inr,
}
use opal.Prelude.Int.{ℤ, pos, negsuc}
use opal.Env.{Bytes}

-- The digits of `n`, of which there are at most as many as the fuel.
unfoldable pub digits : ℕ → ℕ → Bytes
digits zero n = []
digits (suc fuel) n =
    let higher = digits fuel (n / 10) in
    if ltb n 10 then (48 + n) ∷ [] else higher ++ (48 + n % 10) ∷ []

unfoldable pub decimal_ℕ : ℕ → Bytes
unfolding digits
decimal_ℕ n = digits (suc n) n

unfoldable pub decimal : ℤ → Bytes
decimal (pos n) = decimal_ℕ n
decimal (negsuc n) = b'-' ∷ decimal_ℕ (suc n)

abbrev pub AllDigits : Bytes → Type 0
AllDigits [] = Unit
AllDigits (b ∷ bs) = (48 ≤ b) × (b ≤ 57) × AllDigits bs

-- The number that digits behind a number `m` make of it.
abbrev pub worth : ℕ → Bytes → ℕ
worth m [] = m
worth m (b ∷ bs) = worth (m * 10 + (b - 48)) bs

pub le-worth : (bs : Bytes) (m : ℕ) → m ≤ worth m bs
le-worth [] m = omega arith
le-worth (b ∷ bs) m = omega (arith, le-worth bs (m * 10 + (b - 48)))

worth-append : (bs : Bytes) (b m : ℕ) → worth m (bs ++ b ∷ []) ≡ worth m bs * 10 + (b - 48)
worth-append [] b m = refl
worth-append (a ∷ bs) b m = worth-append bs b (m * 10 + (a - 48))

AllDigits-append : (bs : Bytes) (b : ℕ) → AllDigits bs → 48 ≤ b → b ≤ 57 → AllDigits (bs ++ b ∷ [])
AllDigits-append [] b h p q = (p, q, tt)
AllDigits-append (a ∷ bs) b h p q = (h.0, h.1, AllDigits-append bs b h.2 p q)

digits_lem :
    (fuel n : ℕ)
    → n < fuel
    → (worth 0 (digits fuel n) ≡ n) × AllDigits (digits fuel n) × (0 < length (digits fuel n))
unfolding digits
digits_lem zero n h = absurd (omega arith)
digits_lem (suc fuel) n h = elim (Bool-cases (ltb n 10)) [
  | inl small ↦ rw small (omega arith, (omega arith, ground arith, tt), omega arith)
  | inr large ↦
      let ih = digits_lem fuel (n / 10) (ground arith) in
      let higher = digits fuel (n / 10) in
      let d = 48 + n % 10 in
      rw large (
        omega (arith, worth-append higher d 0, ih.0),
        AllDigits-append higher d ih.1 (omega arith) (omega arith),
        omega (arith, length-append higher (d ∷ [])),
      )
]

pub decimal_ℕ-worth : (n : ℕ) → worth 0 (decimal_ℕ n) ≡ n
unfolding decimal_ℕ
decimal_ℕ-worth n = (digits_lem (suc n) n (omega arith)).0

pub decimal_ℕ-AllDigits : (n : ℕ) → AllDigits (decimal_ℕ n)
unfolding decimal_ℕ
decimal_ℕ-AllDigits n = (digits_lem (suc n) n (omega arith)).1

pub decimal_ℕ_pos : (n : ℕ) → 0 < length (decimal_ℕ n)
unfolding decimal_ℕ
decimal_ℕ_pos n = (digits_lem (suc n) n (omega arith)).2
