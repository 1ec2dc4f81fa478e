-- ===== src/Net/Listener/Drain.antt =====
-- A shutdown comes to its end.
use opal.Prelude.{
  ℕ, suc, ◌+◌, ◌*◌, ◌≤◌, ◌<◌, ◌≡◌, ◌⊎◌, inl, inr, refl, sym, ap, ◌∙◌, subst, true, some,
  Option-cases, List, [], ◌∷◌, length, arith,
}
use opal.Net.Listener.{
  Config, Handler, Phase, draining, ended, Server, new_server, Event, acquires, accepts, shuts_down,
  hears, ends, quits, tell, remove, with_handlers, step, Reach,
}
use opal.Net.Listener.Heard.{
  AllHeard, unheard, none-some, tell-unheard, hear, remove-unheard, unheard-le-length,
}
use opal.Net.Listener.Permits.{Balance, Reach-IsBalanced, remove-length}

-- A handler has to hear and to end, and the server to end.
abbrev work_in : Phase → List Handler → ℕ
work_in draining hs = 1 + length hs + unheard hs
work_in _ hs = 0

abbrev work : Server → ℕ
work s = work_in s.phase s.handlers

abbrev Draining : Phase → List Handler → Type 0
Draining p hs = (p ≡ draining) ⊎ ((p ≡ ended) × (hs ≡ []))

-- Events that happen one after the other, each of which changes the server.
pub data Changes (conf : Config) : Server → List Event → Server → Type 0 where
  still : {s : Server} → Changes conf s [] s
  change :
      {s t u : Server} {es : List Event}
      → (e : Event) → step conf e s ≡ some t
      → ¬ (t ≡ s)
      → Changes conf t es u
      → Changes conf s (e ∷ es) u

-- Either all handlers have heard of the shutdown or one can hear of it, and a handler or the server can
-- end.
abbrev pub GoesOn : Config → Server → Type 0
GoesOn conf s =
    (AllHeard s.handlers
      ⊎ ((i : ℕ) × (t : Server) × (step conf (hears i) s ≡ some t)
          × (unheard s.handlers ≡ suc (unheard t.handlers))))
    × ((e : Event) × (t : Server) × (step conf e s ≡ some t)
        × ((length s.handlers ≡ suc (length t.handlers)) ⊎ (t.phase ≡ ended)))

module _ (conf : Config) where
  abbrev draining_server : ℕ → List Handler → Server
  draining_server n hs = record { permits = n; phase = draining; handlers = hs }

  -- What a step from there leads to.
  abbrev Less : Server → Server → Type 0
  Less s u = Draining u.phase u.handlers × ((u ≡ s) ⊎ (work u < work s))

  along_some : (s : Server) {t u : Server} → some t ≡ some u → Less s t → Less s u
  along_some s {t} {u} h l = let e : t ≡ u = cc h in subst (Less s) e l

  step-Less :
      (e : Event) (n : ℕ) (hs : List Handler) (u : Server)
      → step conf e (draining_server n hs) ≡ some u
      → Less (draining_server n hs) u
  unfolding step
  step-Less acquires n hs u h = absurd (none-some h)
  step-Less (accepts attempts) n hs u h = absurd (none-some h)
  step-Less shuts_down n hs u h = absurd (none-some h)
  step-Less quits n [] u h =
      along_some (draining_server n []) h (inr (refl, refl), inr (omega arith))
  step-Less quits n (_ ∷ _) u h = absurd (none-some h)
  step-Less (hears i) n hs u h = elim (Option-cases (tell true i hs)) [
    | inl p ↦ absurd (none-some (ap (with_handlers (draining_server n hs) n) (sym p) ∙ h))
    | inr (hs', p) ↦
        (let (l, d) = tell-unheard i hs hs' p in
          along_some (draining_server n hs)
            (ap (with_handlers (draining_server n hs) n) (sym p) ∙ h)
            (
              inl refl,
              elim d [
                | inl same ↦ inl (ap (draining_server n) same)
                | inr less ↦ inr (omega (arith, l, less))
              ],
            ))
  ]
  step-Less (ends i) n hs u h = elim (Option-cases (remove i hs)) [
    | inl p ↦ absurd (none-some (ap (with_handlers (draining_server n hs) (n + 1)) (sym p) ∙ h))
    | inr (hs', p) ↦
        (let l = (remove-length i hs hs' p).0 in
          let less = remove-unheard i hs hs' p in
          along_some (draining_server n hs)
            (ap (with_handlers (draining_server n hs) (n + 1)) (sym p) ∙ h)
            (inl refl, inr (omega (arith, l, less))))
  ]

  step_ended :
      (e : Event) (n : ℕ) (u : Server)
      → step conf e (record { permits = n; phase = ended; handlers = [] }) ≡ some u
      → ⊥
  unfolding step tell remove
  step_ended acquires n u h = none-some h
  step_ended (accepts attempts) n u h = none-some h
  step_ended shuts_down n u h = none-some h
  step_ended quits n u h = none-some h
  step_ended (hears i) n u h = none-some h
  step_ended (ends i) n u h = none-some h

  leaves :
      (n : ℕ) (hs : List Handler)
      → (e : Event) × (t : Server) × (step conf e (draining_server n hs) ≡ some t)
        × ((length hs ≡ suc (length t.handlers)) ⊎ (t.phase ≡ ended))
  unfolding step remove
  leaves n [] = (quits, _, refl, inr refl)
  leaves n (h ∷ hs) = (ends 0, draining_server (n + 1) hs, refl, inl refl)

  goes_on : (n : ℕ) (hs : List Handler) → GoesOn conf (draining_server n hs)
  unfolding step
  goes_on n hs = (
    elim (hear hs) [
      | inl all ↦ inl all
      | inr (i, hs', e, less) ↦
          inr (i, draining_server n hs', ap (with_handlers (draining_server n hs) n) e, less)
    ],
    leaves n hs,
  )

  abbrev with_phase : Server → Phase → Server
  with_phase s p = record { permits = s.permits; phase = p; handlers = s.handlers }

  step_at :
      (e : Event) (s u : Server) → Draining s.phase s.handlers → step conf e s ≡ some u → Less s u
  step_at e s u d = elim d [
    | inl p ↦
        subst (λ z. step conf e (with_phase s z) ≡ some u → Less (with_phase s z) u) (sym p)
          (step-Less e s.permits s.handlers u)
    | inr (p, q) ↦ λ h. absurd (
        step_ended e s.permits u (
          subst
            (λ z.
              step conf e (record { permits = s.permits; phase = ended; handlers = z }) ≡ some u)
            q (subst (λ z. step conf e (with_phase s z) ≡ some u) p h)))
  ]

  Changes-work :
      (s : Server) (es : List Event) (u : Server)
      → Draining s.phase s.handlers
      → Changes conf s es u
      → (length es + work u ≤ work s) × Draining u.phase u.handlers
  Changes-work _ _ u d still = (omega arith, d)
  Changes-work s (_ ∷ es) u d (change {t = t} e h moved rest) =
      let (d', l) = step_at e s t d h in
      let (k, d'') = Changes-work t es u d' rest in
      elim l [ inl same ↦ absurd (moved same) | inr less ↦ (omega (arith, k, less), d'') ]

  -- Once a server that a new one has become has the shutdown signal, at most twice as many events as
  -- connections are allowed, and one more, can change it, in whatever order they happen. As long as it has
  -- not ended, all its handlers have heard of the shutdown or one of them can hear of it, and then fewer
  -- have not; and a handler or the server can end. When it has ended, it has no handler.
  pub Changes-GoesOn :
      (s : Server) (es : List Event) (u : Server)
      → Reach conf (new_server conf) s
      → s.phase ≡ draining
      → Changes conf s es u
      → (length es ≤ 1 + 2 * conf.max_connections)
        × (((u.phase ≡ ended) × (u.handlers ≡ [])) ⊎ GoesOn conf u)
  Changes-GoesOn s es u r p c =
      let b = subst (λ z. Balance conf z s.permits s.handlers) p (Reach-IsBalanced conf s r) in
      let (k, d) = Changes-work s es u (inl p) c in
      let w : work s ≡ 1 + length s.handlers + unheard s.handlers =
        ap (λ z. work_in z s.handlers) p in
      let m = unheard-le-length s.handlers in
      (
        omega (arith, b, k, w, m),
        elim d [
          | inl q ↦
              inr (subst (λ z. GoesOn conf (with_phase u z)) (sym q) (goes_on u.permits u.handlers))
          | inr e ↦ inl e
        ],
      )
