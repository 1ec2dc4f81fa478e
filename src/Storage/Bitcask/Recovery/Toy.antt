-- ===== src/Storage/Bitcask/Recovery/Toy.antt =====
-- The small instance of the crates, read from the front of a longer input. It has no hint files.
use opal.Prelude.{
  ℕ, zero, suc, ◌-◌, ◌<◌, ◌≤◌, ◌≡◌, refl, ap, ◌∙◌, Option, none, some, [], ◌∷◌, ◌++◌, append_assoc,
  length, length-append, arith,
}
use opal.Prelude.Int.{ℤ, pos, negsuc}
use opal.Env.{Bytes}
use opal.Storage.Bitcask.Data.{DataFileEntry}
use opal.Storage.Bitcask.Store.Toy.{toy, unary, marked, of_int, of_value}
use opal.Storage.Bitcask.Recovery.{Streams, Decoded, entry, eof}
use opal.Storage.Bitcask.Recovery.Replay.{IsStream}

abbrev pub Parsed : Type 0 → Type 0
Parsed A = Option (A × Bytes)

abbrev pub then : {A B : Type 0} → Parsed A → (A → Bytes → Parsed B) → Parsed B
then none f = none
then (some (a, r)) f = f a r

abbrev pub next_unary : Bytes → Parsed ℕ
next_unary [] = none
next_unary (zero ∷ bs) = some (0, bs)
next_unary (suc _ ∷ bs) = then (next_unary bs) (λ n r. some (suc n, r))

abbrev pub next_marked : Bytes → Parsed Bytes
next_marked [] = none
next_marked (zero ∷ bs) = some ([], bs)
next_marked (suc _ ∷ []) = none
next_marked (suc _ ∷ b ∷ bs) = then (next_marked bs) (λ k r. some (b ∷ k, r))

abbrev pub next_int : Bytes → Parsed ℤ
next_int [] = none
next_int (zero ∷ bs) = then (next_unary bs) (λ n r. some (pos n, r))
next_int (suc _ ∷ bs) = then (next_unary bs) (λ n r. some (negsuc n, r))

abbrev next_value : Bytes → Parsed (Option Bytes)
next_value [] = none
next_value (zero ∷ bs) = some (none, bs)
next_value (suc _ ∷ bs) = then (next_marked bs) (λ v r. some (some v, r))

abbrev next_entry : Bytes → Parsed DataFileEntry
next_entry bs = then (next_int bs) (λ t r.
    then (next_marked r) (λ k r'.
      then (next_value r') (λ v r''. some (record { tstamp = t; key = k; value = v }, r''))))

abbrev pub as_decoded : {A : Type 0} → Bytes → Parsed A → Decoded A
as_decoded bs none = eof
as_decoded bs (some (d, r)) = entry d (length bs - length r)

-- What is read is gone from the input.
abbrev pub Shorter : {A : Type 0} → ℕ → Parsed A → Type 0
Shorter n none = Unit
Shorter n (some (a, r)) = length r < n

pub Shorter-then :
    {A B : Type 0} (n m : ℕ) (p : Parsed A) (f : A → Bytes → Parsed B)
    → n ≤ m
    → Shorter n p
    → ((a : A) (r : Bytes) → length r < n → Shorter m (f a r))
    → Shorter m (then p f)
Shorter-then n m none f l h g = tt
Shorter-then n m (some (a, r)) f l h g = g a r h

pub next_unary-Shorter : (bs : Bytes) → Shorter (length bs) (next_unary bs)
next_unary-Shorter [] = tt
next_unary-Shorter (zero ∷ bs) = omega arith
next_unary-Shorter (suc _ ∷ bs) =
    Shorter-then (length bs) (suc (length bs)) (next_unary bs) _ (omega arith)
      (next_unary-Shorter bs) (λ n r h. omega (arith, h))

pub next_marked-Shorter : (bs : Bytes) → Shorter (length bs) (next_marked bs)
next_marked-Shorter [] = tt
next_marked-Shorter (zero ∷ bs) = omega arith
next_marked-Shorter (suc _ ∷ []) = tt
next_marked-Shorter (suc _ ∷ b ∷ bs) =
    Shorter-then (length bs) (suc (suc (length bs))) (next_marked bs) _ (omega arith)
      (next_marked-Shorter bs) (λ n r h. omega (arith, h))

pub next_int-Shorter : (bs : Bytes) → Shorter (length bs) (next_int bs)
next_int-Shorter [] = tt
next_int-Shorter (zero ∷ bs) =
    Shorter-then (length bs) (suc (length bs)) (next_unary bs) _ (omega arith)
      (next_unary-Shorter bs) (λ n r h. omega (arith, h))
next_int-Shorter (suc _ ∷ bs) =
    Shorter-then (length bs) (suc (length bs)) (next_unary bs) _ (omega arith)
      (next_unary-Shorter bs) (λ n r h. omega (arith, h))

next_value-Shorter : (bs : Bytes) → Shorter (length bs) (next_value bs)
next_value-Shorter [] = tt
next_value-Shorter (zero ∷ bs) = omega arith
next_value-Shorter (suc _ ∷ bs) =
    Shorter-then (length bs) (suc (length bs)) (next_marked bs) _ (omega arith)
      (next_marked-Shorter bs) (λ n r h. omega (arith, h))

next_entry-Shorter : (bs : Bytes) → Shorter (length bs) (next_entry bs)
next_entry-Shorter bs =
    Shorter-then (length bs) (length bs) (next_int bs) _ (omega arith) (next_int-Shorter bs)
      (λ t r h.
        Shorter-then (length r) (length bs) (next_marked r) _ (omega arith) (next_marked-Shorter r)
          (λ k r' h'.
            Shorter-then (length r') (length bs) (next_value r') _ (omega arith)
              (next_value-Shorter r') (λ v r'' h''. omega arith)))

pub takes :
    {A : Type 0} (bs : Bytes) (p : Parsed A) (d : A) (n : ℕ)
    → Shorter (length bs) p
    → as_decoded bs p ≡ entry d n
    → (0 < n) × (n ≤ length bs)
takes bs none d n h e = absurd (cc e)
takes bs (some (a, r)) d n h e =
    let q : length bs - length r ≡ n = cc e in (omega arith, omega arith)

pub next_unary-unary : (n : ℕ) (r : Bytes) → next_unary (unary n ++ r) ≡ some (n, r)
next_unary-unary zero r = refl
next_unary-unary (suc n) r = rw (next_unary-unary n r) refl

pub next_marked-marked : (k r : Bytes) → next_marked (marked k ++ r) ≡ some (k, r)
next_marked-marked [] r = refl
next_marked-marked (b ∷ k) r = rw (next_marked-marked k r) refl

pub next_int-of_int : (t : ℤ) (r : Bytes) → next_int (of_int t ++ r) ≡ some (t, r)
next_int-of_int (pos n) r = rw (next_unary-unary n r) refl
next_int-of_int (negsuc n) r = rw (next_unary-unary n r) refl

next_value-of_value : (v : Option Bytes) (r : Bytes) → next_value (of_value v ++ r) ≡ some (v, r)
next_value-of_value none r = refl
next_value-of_value (some v) r = rw (next_marked-marked v r) refl

next_entry-serialize :
    (d : DataFileEntry) (r : Bytes) → next_entry (toy.serialize d ++ r) ≡ some (d, r)
next_entry-serialize d r =
    rw (append_assoc (of_int d.tstamp) (marked d.key ++ of_value d.value) r) (
      rw (next_int-of_int d.tstamp ((marked d.key ++ of_value d.value) ++ r)) (
        rw (append_assoc (marked d.key) (of_value d.value) r) (
          rw (next_marked-marked d.key (of_value d.value ++ r))
            (rw (next_value-of_value d.value r) refl))))

abbrev pub toy_streams : Streams toy
toy_streams = record {
  data_from = λ bs. as_decoded bs (next_entry bs);
  hint_from = λ bs. eof;
  empty_keydir = λ k. none;
  empty_cache = λ i. none;
}

data_from-serialize :
    (d : DataFileEntry) (r : Bytes)
    → as_decoded (toy.serialize d ++ r) (next_entry (toy.serialize d ++ r))
      ≡ entry d (length (toy.serialize d))
data_from-serialize d r =
    let n : length (toy.serialize d ++ r) - length r ≡ length (toy.serialize d) =
      omega (arith, length-append (toy.serialize d) r) in
    ap (as_decoded (toy.serialize d ++ r)) (next_entry-serialize d r) ∙ ap (entry d) n

nonempty : (t : ℤ) (bs : Bytes) → 0 < length (of_int t ++ bs)
nonempty (pos n) bs = omega arith
nonempty (negsuc n) bs = omega arith

pub toy-IsStream : IsStream toy toy_streams
toy-IsStream = record {
  data_from-serialize = data_from-serialize;
  data_from-nil = refl;
  data_from_takes = λ bs d n. takes bs (next_entry bs) d n (next_entry-Shorter bs);
  hint_from_takes = λ bs h n e. absurd (cc e);
  length-serialize = λ d. nonempty d.tstamp (marked d.key ++ of_value d.value);
  deserialize-nil = refl;
  get-empty_keydir = λ k. refl;
  peek-empty_cache = λ i. refl;
}
