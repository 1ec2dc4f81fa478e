-- ===== src/Net/Listener/Heard.antt =====
-- How many handlers have heard of a shutdown.
use opal.Prelude.{
  ℕ, zero, suc, ◌+◌, ◌≤◌, ◌≡◌, ◌⊎◌, inl, inr, refl, sym, ap, ◌∙◌, subst, true, Bool-cases, none,
  some, Option-cases, List, [], ◌∷◌, length, arith, if◌then◌else◌,
}
use opal.Net.Listener.{Shutdown, recv, Handler, with_told, behind, tell, remove}

abbrev pub AllHeard : List Handler → Type 0
AllHeard [] = Unit
AllHeard (h ∷ hs) = (h.shutdown.shutdown ≡ true) × AllHeard hs

-- How many handlers have not heard of the shutdown.
unfoldable pub unheard : List Handler → ℕ
unheard [] = 0
unheard (h ∷ hs) = (if h.shutdown.shutdown then 0 else 1) + unheard hs

pub none-some : {A : Type 0} {a : A} → none ≡ some a → ⊥
none-some h = ground (arith, h)

recv_closed : (s : Shutdown) → recv true s ≡ some (record { shutdown = true })
unfolding recv
recv_closed s = elim (Bool-cases s.shutdown) [ inl e ↦ rw e refl | inr e ↦ rw e refl ]

pub tell-unheard :
    (i : ℕ) (hs hs' : List Handler)
    → tell true i hs ≡ some hs'
    → (length hs' ≡ length hs) × ((hs' ≡ hs) ⊎ (unheard hs ≡ suc (unheard hs')))
unfolding tell unheard
tell-unheard i [] hs' e = absurd (none-some e)
tell-unheard zero (h ∷ hs) hs' e =
    let q : record h { shutdown = record { shutdown = true } } ∷ hs ≡ hs' =
      cc (ap (with_told h hs) (sym (recv_closed h.shutdown)) ∙ e) in
    subst
      (λ z.
        (length z ≡ suc (length hs))
        × ((z ≡ h ∷ hs) ⊎ ((if h.shutdown.shutdown then 0 else 1) + unheard hs ≡ suc (unheard z))))
      q
      (
        refl,
        elim (Bool-cases h.shutdown.shutdown) [
          | inl b ↦ inl (ap (λ z. record h { shutdown = record { shutdown = z } } ∷ hs) (sym b))
          | inr b ↦ inr (rw b (omega arith))
        ],
      )
tell-unheard (suc i) (h ∷ hs) hs' e = elim (Option-cases (tell true i hs)) [
  | inl p ↦ absurd (none-some (ap (behind h) (sym p) ∙ e))
  | inr (rest, p) ↦
      (let (l, d) = tell-unheard i hs rest p in
        let q : h ∷ rest ≡ hs' = cc (ap (behind h) (sym p) ∙ e) in
        subst
          (λ z.
            (length z ≡ suc (length hs))
            × ((z ≡ h ∷ hs)
                ⊎ ((if h.shutdown.shutdown then 0 else 1) + unheard hs ≡ suc (unheard z))))
          q
          (
            ap suc l,
            elim d [ inl same ↦ inl (ap (λ z. h ∷ z) same) | inr less ↦ inr (omega (arith, less)) ],
          ))
]

-- A handler that has not heard can hear.
pub hear :
    (hs : List Handler)
    → AllHeard hs
      ⊎ ((i : ℕ) × (hs' : List Handler) × (tell true i hs ≡ some hs')
          × (unheard hs ≡ suc (unheard hs')))
unfolding tell unheard
hear [] = inl tt
hear (h ∷ hs) = elim (Bool-cases h.shutdown.shutdown) [
  | inl b ↦ elim (hear hs) [
    | inl all ↦ inl (b, all)
    | inr (i, hs', e, less) ↦ inr (suc i, h ∷ hs', ap (behind h) e, omega (arith, less))
  ]
  | inr b ↦ inr (
    0,
    record h { shutdown = record { shutdown = true } } ∷ hs,
    ap (with_told h hs) (recv_closed h.shutdown),
    rw b (omega arith),
  )
]

pub remove-unheard :
    (i : ℕ) (hs hs' : List Handler) → remove i hs ≡ some hs' → unheard hs' ≤ unheard hs
unfolding remove unheard
remove-unheard i [] hs' e = absurd (none-some e)
remove-unheard zero (h ∷ hs) hs' e =
    let p : hs ≡ hs' = cc e in
    subst (λ z. unheard z ≤ (if h.shutdown.shutdown then 0 else 1) + unheard hs) p (omega arith)
remove-unheard (suc i) (h ∷ hs) hs' e = elim (Option-cases (remove i hs)) [
  | inl p ↦ absurd (none-some (ap (behind h) (sym p) ∙ e))
  | inr (rest, p) ↦
      (let l = remove-unheard i hs rest p in
        let q : h ∷ rest ≡ hs' = cc (ap (behind h) (sym p) ∙ e) in
        subst (λ z. unheard z ≤ (if h.shutdown.shutdown then 0 else 1) + unheard hs) q
          (omega (arith, l)))
]

pub unheard-le-length : (hs : List Handler) → unheard hs ≤ length hs
unfolding unheard
unheard-le-length [] = omega arith
unheard-le-length (h ∷ hs) = ground (arith, unheard-le-length hs)
