-- ===== src/Net/Listener/Backoff.antt =====
-- `accept` tries again only so often: its pauses double up to their maximum.
use opal.Prelude.{
  ℕ, zero, suc, ◌+◌, ◌*◌, ◌^◌, ◌≤◌, ◌<◌, ◌≡◌, ◌⊎◌, inl, inr, refl, ap, true, List, [], ◌∷◌, length,
  ltb, arith, Bool-cases, dec_le,
}
use opal.Net.Listener.{
  Config, Attempt, connection, failure, Accepted, accepted, gave_up, slept, doubled, accept_loop,
  accept,
}

-- What a pause is after some more doublings.
abbrev after : ℕ → ℕ → ℕ
after zero b = b
after (suc n) b = after n (b * 2)

after-le : (n b c : ℕ) → b ≤ c → after n b ≤ after n c
after-le zero b c h = h
after-le (suc n) b c h = after-le n (b * 2) (c * 2) (omega (arith, h))

-- An answer, with the time it took.
pub record IsAnswer (max : ℕ) (o : Accepted) : Type 0 where
  pub total : ℕ
  pub answer : ((socket : ℕ) × (o ≡ accepted socket total)) ⊎ (o ≡ gave_up total)
  pub bounded : total ≤ 2 * max

slept-answer :
    (b t : ℕ) (o : Accepted)
    → ((socket : ℕ) × (o ≡ accepted socket t)) ⊎ (o ≡ gave_up t)
    → ((socket : ℕ) × (slept b o ≡ accepted socket (b + t))) ⊎ (slept b o ≡ gave_up (b + t))
slept-answer b t o (inl (s, e)) = inl (s, ap (slept b) e)
slept-answer b t o (inr e) = inr (ap (slept b) e)

total_le :
    (max b b' t : ℕ)
    → b' ≡ b * 2
    → (b' ≤ max → t + b' ≤ 2 * max)
    → (max < b' → t ≡ 0)
    → b ≤ max
    → b + t + b ≤ 2 * max
total_le max b b' t e le gt h = elim (dec_le b' max) [
  | yes p ↦ (let q = le p in omega (arith, e, q))
  | no p ↦ (let q = gt (omega (arith, p)) in omega (arith, h, q))
]

accept_loop-answer :
    (max : ℕ) (attempts : List Attempt) (b n : ℕ)
    → max < 2 ^ 63
    → 0 < b
    → max < after n b
    → n < length attempts
    → (t : ℕ) × (((socket : ℕ) × (accept_loop max attempts b ≡ accepted socket t))
        ⊎ (accept_loop max attempts b ≡ gave_up t))
      × ((b ≤ max → t + b ≤ 2 * max) × (max < b → t ≡ 0))
unfolding accept_loop
accept_loop-answer max [] b n h p q l = absurd (omega (arith, l))
accept_loop-answer max (connection s ∷ rest) b n h p q l =
    (0, inl (s, refl), (λ k. omega (arith, k), λ k. refl))
accept_loop-answer max (failure ∷ rest) b zero h p q l = (
  0,
  inr (let e : ltb max b ≡ true = ground (arith, q) in rw e refl),
  (λ k. absurd (omega (arith, k, q)), λ k. refl),
)
accept_loop-answer max (failure ∷ rest) b (suc n) h p q l = elim (Bool-cases (ltb max b)) [
  | inl over ↦ (0, inr (rw over refl), (λ k. absurd (ground (arith, k, over)), λ k. refl))
  | inr fine ↦
      (let small : b ≤ max = ground (arith, fine) in
        let e : doubled b ≡ b * 2 = omega (arith, small, h) in
        let q' : max < after n (doubled b) = rw e q in
        let (t, o, (le, gt)) =
          accept_loop-answer max rest (doubled b) n h (omega (arith, e, p)) q' (omega (arith, l)) in
        (
          b + t,
          rw fine (slept-answer b t (accept_loop max rest (doubled b)) o),
          (λ k. total_le max b (doubled b) t e le gt k, λ k. absurd (omega (arith, small, k))),
        ))
]

after-pow : (b : ℕ) → 0 < b → 2 ^ 63 ≤ after 63 b
after-pow b h = omega (arith, after-le 63 1 b h)

-- With a positive least pause up to the greatest one and that below 2^63 ms, `accept` answers within 64 attempts, with a
-- connection or by giving up, and has slept for at most twice the greatest pause by
-- then.
pub accept-IsAnswer :
    (conf : Config) (attempts : List Attempt)
    → 0 < conf.min_backoff_ms
    → conf.min_backoff_ms ≤ conf.max_backoff_ms
    → conf.max_backoff_ms < 2 ^ 63
    → 64 ≤ length attempts
    → IsAnswer conf.max_backoff_ms (accept conf attempts)
unfolding accept
accept-IsAnswer conf attempts p m h l =
    let (t, o, (le, _)) =
      accept_loop-answer conf.max_backoff_ms attempts conf.min_backoff_ms 63 h p
        (omega (arith, h, after-pow conf.min_backoff_ms p)) (omega (arith, l)) in
    record { total = t; answer = o; bounded = (let q = le m in omega (arith, q)) }
