-- ===== src/Net/Command/Frames.antt =====
-- The frames that parse as commands are those that commands are sent as.
use opal.Prelude.{subst, ◌≡◌, ◌↔◌, refl, ap, true, some, List, [], ◌∷◌, arith, Bool-cases, inl, inr}
use opal.Env.{Bytes}
use opal.Net.Frame.Data.{Frame, bulk_string, array, nil, cons}
use opal.Net.Frame.Utf8.{is_utf8}
use opal.Net.Command.{
  Command, del, get, set, Result, ok, err, ◌>>=◌, Parser, try_from, to_frame, bulk_strings, keys,
  del_from, get_from, set_from, dispatch, utf8_bytes, bytes_eq, del_word, get_word, set_word,
}

abbrev pub AllUtf8 : List Bytes → Type 0
AllUtf8 [] = Unit
AllUtf8 (k ∷ ks) = (is_utf8 k ≡ true) × AllUtf8 ks

-- The commands that the types and the parser let exist.
abbrev pub IsProper : Command → Type 0
IsProper (del []) = ⊥
IsProper (del (k ∷ ks)) = AllUtf8 (k ∷ ks)
IsProper (get key) = is_utf8 key ≡ true
IsProper (set key value) = is_utf8 key ≡ true

keys-bulk_strings : (ks : List Bytes) → AllUtf8 ks → keys (bulk_strings ks) ≡ ok ks
unfolding keys bulk_strings utf8_bytes
keys-bulk_strings [] h = refl
keys-bulk_strings (k ∷ ks) h = rw h.0 (rw (keys-bulk_strings ks h.1))

try_from-to_frame : (c : Command) → IsProper c → try_from (to_frame c) ≡ ok c
unfolding try_from to_frame utf8_bytes
try_from-to_frame (del []) h = absurd h
try_from-to_frame (del (k ∷ ks)) h = rw (keys-bulk_strings (k ∷ ks) h)
try_from-to_frame (get key) h = rw h
try_from-to_frame (set key value) h = rw h

bytes_eq→eq : (a b : Bytes) → bytes_eq a b ≡ true → b ≡ a
bytes_eq→eq [] [] h = refl
bytes_eq→eq [] (b ∷ bs) h = cc
bytes_eq→eq (a ∷ as') [] h = cc
bytes_eq→eq (a ∷ as') (b ∷ bs) h = ground (arith, bytes_eq→eq as' bs)

-- What holds of a result if there is one.
abbrev Ensures {ℓ} : {A : Type ℓ} → (A → Type 0) → Result A → Type 0
Ensures P (ok a) = P a
Ensures P (err e) = Unit

Ensures-bind {ℓ κ} :
    {A : Type ℓ} {B : Type κ} (P : A → Type 0) (Q : B → Type 0) (r : Result A) (f : A → Result B)
    → Ensures P r
    → ((a : A) → P a → Ensures Q (f a))
    → Ensures Q (r >>= f)
Ensures-bind P Q (ok a) f h k = k a h
Ensures-bind P Q (err e) f h k = tt

keys-Ensures : (p : Parser) → Ensures (λ ks. (p ≡ bulk_strings ks) × AllUtf8 ks) (keys p)
unfolding keys bulk_strings utf8_bytes
keys-Ensures nil = (refl, tt)
keys-Ensures (cons (bulk_string s) p) = elim (Bool-cases (is_utf8 s)) [
  | inl u ↦ rw u (
      Ensures-bind _ _ (keys p) _ (keys-Ensures p)
        λ ks h. (ap (cons (bulk_string s)) h.0, (u, h.1)))
  | inr n ↦ rw n tt
]
keys-Ensures (cons f p) = tt

-- A command that was read off what stands behind the word `w`.
abbrev Behind : Bytes → Parser → Command → Type 0
Behind w p c = (array (cons (bulk_string w) p) ≡ to_frame c) × IsProper c

del_from-Behind : (p : Parser) → Ensures (Behind del_word p) (del_from p)
unfolding del_from to_frame
del_from-Behind p = Ensures-bind _ _ (keys p) _ (keys-Ensures p) (elim [
  | [] ↦ λ h. tt
  | k ∷ ks ↦ λ h. (ap (λ q. array (cons (bulk_string del_word) q)) h.0, h.1)
])

get_from-Behind : (p : Parser) → Ensures (Behind get_word p) (get_from p)
unfolding get_from to_frame utf8_bytes
get_from-Behind nil = tt
get_from-Behind (cons (bulk_string s) nil) = ground arith
get_from-Behind (cons (bulk_string s) (cons f p)) = ground arith
get_from-Behind (cons f p) = tt

set_from-Behind : (p : Parser) → Ensures (Behind set_word p) (set_from p)
unfolding set_from to_frame utf8_bytes
set_from-Behind nil = tt
set_from-Behind (cons (bulk_string s) nil) = ground arith
set_from-Behind (cons (bulk_string s) (cons (bulk_string v) nil)) = ground arith
set_from-Behind (cons (bulk_string s) (cons (bulk_string v) (cons f p))) = ground arith
set_from-Behind (cons (bulk_string s) (cons f p)) = ground arith
set_from-Behind (cons f p) = tt

dispatch-Behind : (b : Bytes) (p : Parser) → Ensures (Behind b p) (dispatch (some b) p)
unfolding dispatch
dispatch-Behind b p = elim (Bool-cases (bytes_eq del_word b)) [
  | inl d ↦ rw d (rw (bytes_eq→eq del_word b d) (del_from-Behind p))
  | inr d ↦ rw d (elim (Bool-cases (bytes_eq get_word b)) [
    | inl g ↦ rw g (rw (bytes_eq→eq get_word b g) (get_from-Behind p))
    | inr g ↦ rw g (elim (Bool-cases (bytes_eq set_word b)) [
      | inl s ↦ rw s (rw (bytes_eq→eq set_word b s) (set_from-Behind p))
      | inr s ↦ rw s tt
    ])
  ])
]

try_from-Ensures : (f : Frame) → Ensures (λ c. (f ≡ to_frame c) × IsProper c) (try_from f)
unfolding try_from
try_from-Ensures (array nil) = tt
try_from-Ensures (array (cons (bulk_string b) p)) = dispatch-Behind b p
try_from-Ensures (array (cons f p)) = tt
try_from-Ensures f = tt

-- A frame parses as a command exactly when it is the frame that the command is sent as and the
-- command is proper: its keys are UTF-8, and a DEL has a key.
pub try_from-eq-ok_iff :
    (f : Frame) (c : Command) → (try_from f ≡ ok c) ↔ ((f ≡ to_frame c) × IsProper c)
try_from-eq-ok_iff f c = (
  λ h. subst (Ensures (λ c. (f ≡ to_frame c) × IsProper c)) h (try_from-Ensures f),
  λ h. rw h.0 (try_from-to_frame c h.1),
)
