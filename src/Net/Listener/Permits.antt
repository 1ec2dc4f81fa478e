-- ===== src/Net/Listener/Permits.antt =====
-- Permits and handlers: never more handlers than connections are allowed, and no permit is lost while the
-- server listens.
use opal.Prelude.{
  ℕ, zero, suc, ◌+◌, ◌≤◌, ◌≡◌, refl, sym, ap, ◌∙◌, subst, Bool, true, false, Option, none, some,
  Option-cases, inl, inr, List, [], ◌∷◌, length, arith, if◌then◌else◌,
}
use opal.Net.Listener.{
  Config, Accepted, accepted, gave_up, waiting, accept, recv, Handler, Phase, acquiring, accepting,
  draining, ended, Server, new_server, Event, acquires, accepts, shuts_down, hears, ends, quits,
  channel_closed, with_told, behind, tell, remove, acquire, spawn, with_handlers, quit, listen,
  step, Reach, here, next,
}

-- No handler has heard of a shutdown.
abbrev pub AllRunning : List Handler → Type 0
AllRunning [] = Unit
AllRunning (h ∷ hs) = (h.shutdown.shutdown ≡ false) × AllRunning hs

-- The permits that are left, those of the handlers and the one that `listen` holds are all; the last one
-- may be lost when `listen` is given up.
abbrev pub Balance : Config → Phase → ℕ → List Handler → Type 0
Balance conf acquiring permits hs = (permits + length hs ≡ conf.max_connections) × AllRunning hs
Balance conf accepting permits hs = (permits + length hs + 1 ≡ conf.max_connections) × AllRunning hs
Balance conf draining permits hs = permits + length hs ≤ conf.max_connections
Balance conf ended permits hs = (permits ≤ conf.max_connections) × (hs ≡ [])

abbrev pub IsBalanced : Config → Server → Type 0
IsBalanced conf s = Balance conf s.phase s.permits s.handlers

none-some : {A : Type 0} {a : A} → none ≡ some a → ⊥
none-some h = ground (arith, h)

step_to : {A : Type 0} {t u : A} (P : A → Type 0) → some t ≡ some u → P t → P u
step_to {t = t} {u = u} P h = let e : t ≡ u = cc h in subst P e

pub remove-length :
    (i : ℕ) (hs hs' : List Handler)
    → remove i hs ≡ some hs'
    → (length hs ≡ suc (length hs')) × (AllRunning hs → AllRunning hs')
unfolding remove
remove-length i [] hs' e = absurd (none-some e)
remove-length zero (h ∷ hs) hs' e =
    let p : hs ≡ hs' = cc e in (ap (λ z. suc (length z)) p, λ r. subst AllRunning p r.1)
remove-length (suc i) (h ∷ hs) hs' e = elim (Option-cases (remove i hs)) [
  | inl p ↦ absurd (none-some (ap (behind h) (sym p) ∙ e))
  | inr (rest, p) ↦
      (let (l, r) = remove-length i hs rest p in
        let q : h ∷ rest ≡ hs' = cc (ap (behind h) (sym p) ∙ e) in
        (ap suc l ∙ ap (λ z. suc (length z)) q, λ a. subst AllRunning q (a.0, r a.1)))
]

-- Nobody hears of a shutdown before the channel is closed.
pub tell-length :
    (closed : Bool) (i : ℕ) (hs hs' : List Handler)
    → tell closed i hs ≡ some hs'
    → (length hs ≡ length hs') × (closed ≡ false → AllRunning hs → ⊥)
unfolding tell recv
tell-length closed i [] hs' e = absurd (none-some e)
tell-length closed zero (h ∷ hs) hs' e = elim (Option-cases (recv closed h.shutdown)) [
  | inl p ↦ absurd (none-some (ap (with_told h hs) (sym p) ∙ e))
  | inr (s, p) ↦
      (let q : record h { shutdown = s } ∷ hs ≡ hs' = cc (ap (with_told h hs) (sym p) ∙ e) in
        (
          ap length q,
          λ c r. none-some (
              let z : recv false h.shutdown ≡ some s =
                subst (λ b. recv b h.shutdown ≡ some s) c p in
              subst (λ b. (if b then some h.shutdown else none) ≡ some s) r.0 z),
        ))
]
tell-length closed (suc i) (h ∷ hs) hs' e = elim (Option-cases (tell closed i hs)) [
  | inl p ↦ absurd (none-some (ap (behind h) (sym p) ∙ e))
  | inr (rest, p) ↦
      (let (l, r) = tell-length closed i hs rest p in
        let q : h ∷ rest ≡ hs' = cc (ap (behind h) (sym p) ∙ e) in
        (ap suc l ∙ ap length q, λ c a. r c a.1))
]

module _ (conf : Config) where
  tell-Balance :
      (p : Phase) (permits i : ℕ) (hs hs' : List Handler)
      → tell (channel_closed p) i hs ≡ some hs'
      → Balance conf p permits hs
      → Balance conf p permits hs'
  unfolding tell
  tell-Balance acquiring permits i hs hs' e b = absurd ((tell-length false i hs hs' e).1 refl b.1)
  tell-Balance accepting permits i hs hs' e b = absurd ((tell-length false i hs hs' e).1 refl b.1)
  tell-Balance draining permits i hs hs' e b = omega (arith, b, (tell-length true i hs hs' e).0)
  tell-Balance ended permits i hs hs' e b =
      absurd (none-some (subst (λ z. tell true i z ≡ some hs') b.1 e))

  remove-Balance :
      (p : Phase) (permits i : ℕ) (hs hs' : List Handler)
      → remove i hs ≡ some hs'
      → Balance conf p permits hs
      → Balance conf p (permits + 1) hs'
  unfolding remove
  remove-Balance acquiring permits i hs hs' e b =
      let (l, r) = remove-length i hs hs' e in (omega (arith, b.0, l), r b.1)
  remove-Balance accepting permits i hs hs' e b =
      let (l, r) = remove-length i hs hs' e in (omega (arith, b.0, l), r b.1)
  remove-Balance draining permits i hs hs' e b = omega (arith, b, (remove-length i hs hs' e).0)
  remove-Balance ended permits i hs hs' e b =
      absurd (none-some (subst (λ z. remove i z ≡ some hs') b.1 e))

  acquire-IsBalanced :
      (permits : ℕ) (s u : Server)
      → permits + length s.handlers ≡ conf.max_connections
      → AllRunning s.handlers
      → acquire permits s ≡ some u
      → IsBalanced conf u
  acquire-IsBalanced zero s u b r e = absurd (none-some e)
  acquire-IsBalanced (suc n) s u b r e = step_to (IsBalanced conf) e (omega (arith, b), r)

  spawn-IsBalanced :
      (a : Accepted) (s u : Server)
      → s.permits + length s.handlers + 1 ≡ conf.max_connections
      → AllRunning s.handlers
      → spawn a s ≡ some u
      → IsBalanced conf u
  spawn-IsBalanced (accepted socket t) s u b r e =
      step_to (IsBalanced conf) e (omega (arith, b), (refl, r))
  spawn-IsBalanced (gave_up t) s u b r e = step_to (IsBalanced conf) e (omega (arith, b))
  spawn-IsBalanced waiting s u b r e = absurd (none-some e)

  quit-IsBalanced :
      (hs : List Handler) (s u : Server)
      → hs ≡ s.handlers
      → s.permits + length s.handlers ≤ conf.max_connections
      → quit hs s ≡ some u
      → IsBalanced conf u
  quit-IsBalanced [] s u q b e = step_to (IsBalanced conf) e (omega (arith, b), sym q)
  quit-IsBalanced (h ∷ hs) s u q b e = absurd (none-some e)

  listen-IsBalanced :
      (e : Event) (p : Phase) (s u : Server)
      → Balance conf p s.permits s.handlers
      → listen conf e p s ≡ some u
      → IsBalanced conf u
  listen-IsBalanced acquires acquiring s u b h = acquire-IsBalanced s.permits s u b.0 b.1 h
  listen-IsBalanced (accepts attempts) accepting s u b h =
      spawn-IsBalanced (accept conf attempts) s u b.0 b.1 h
  listen-IsBalanced shuts_down acquiring s u b h = step_to (IsBalanced conf) h (omega (arith, b.0))
  listen-IsBalanced shuts_down accepting s u b h = step_to (IsBalanced conf) h (omega (arith, b.0))
  listen-IsBalanced quits draining s u b h = quit-IsBalanced s.handlers s u refl b h
  listen-IsBalanced _ _ s u b h = absurd (none-some h)

  with_handlers-IsBalanced :
      (s u : Server) (permits : ℕ) (o : Option (List Handler))
      → ((hs : List Handler) → o ≡ some hs → Balance conf s.phase permits hs)
      → with_handlers s permits o ≡ some u
      → IsBalanced conf u
  with_handlers-IsBalanced s u permits none b e = absurd (none-some e)
  with_handlers-IsBalanced s u permits (some hs) b e = step_to (IsBalanced conf) e (b hs refl)

  step-IsBalanced :
      (e : Event) (s u : Server) → step conf e s ≡ some u → IsBalanced conf s → IsBalanced conf u
  unfolding step
  step-IsBalanced (hears i) s u h b =
      with_handlers-IsBalanced s u s.permits (tell (channel_closed s.phase) i s.handlers)
        (λ hs p. tell-Balance s.phase s.permits i s.handlers hs p b) h
  step-IsBalanced (ends i) s u h b =
      with_handlers-IsBalanced s u (s.permits + 1) (remove i s.handlers)
        (λ hs p. remove-Balance s.phase s.permits i s.handlers hs p b) h
  step-IsBalanced acquires s u h b = listen-IsBalanced acquires s.phase s u b h
  step-IsBalanced (accepts attempts) s u h b = listen-IsBalanced (accepts attempts) s.phase s u b h
  step-IsBalanced shuts_down s u h b = listen-IsBalanced shuts_down s.phase s u b h
  step-IsBalanced quits s u h b = listen-IsBalanced quits s.phase s u b h

  -- In every state that a new server reaches, the permits that are left, one for each running handler and
  -- the one that a waiting `accept` holds are as many as connections are allowed, while the server listens,
  -- and no handler has heard of a shutdown then; behind that, the permits and the handlers are no more
  -- than that, and a server that has ended has no handler.
  pub Reach-IsBalanced : (s : Server) → Reach conf (new_server conf) s → IsBalanced conf s
  Reach-IsBalanced _ here = (omega arith, tt)
  Reach-IsBalanced u (next {t = t} r e h) = step-IsBalanced e t u h (Reach-IsBalanced t r)
