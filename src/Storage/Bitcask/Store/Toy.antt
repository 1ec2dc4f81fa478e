-- ===== src/Storage/Bitcask/Store/Toy.antt =====
-- A small instance of the crates, for the tests: an encoding without lengths, a key directory and a
-- cache that are functions. The cache never evicts.
use opal.Prelude.{
  ℕ, zero, suc, ◌≡◌, ◌≢◌, ◌⊎◌, inl, inr, refl, sym, ap, ◌∙◌, Option, none, some, [], ◌∷◌, ◌++◌,
  append-nil, ℕ_discrete,
}
use opal.Prelude.Int.{ℤ, pos, negsuc}
use opal.Env.{Bytes}
use opal.Storage.Bitcask.Data.{DataFileEntry, KeyDirEntry}
use opal.Storage.Bitcask.Crates.{Crates, IsLawful, LogReader}
use opal.Storage.Bitcask.Store.Append.{Bytes-discrete}

abbrev pub unary : ℕ → Bytes
unary zero = 0 ∷ []
unary (suc n) = 1 ∷ unary n

-- Each byte behind a 1, and a 0 at the end.
abbrev pub marked : Bytes → Bytes
marked [] = 0 ∷ []
marked (b ∷ bs) = 1 ∷ b ∷ marked bs

abbrev read_unary : Bytes → ℕ × Bytes
read_unary [] = (0, [])
read_unary (zero ∷ bs) = (0, bs)
read_unary (suc _ ∷ bs) = let (n, r) = read_unary bs in (suc n, r)

abbrev read_marked : Bytes → Bytes × Bytes
read_marked [] = ([], [])
read_marked (zero ∷ bs) = ([], bs)
read_marked (suc _ ∷ []) = ([], [])
read_marked (suc _ ∷ b ∷ bs) = let (k, r) = read_marked bs in (b ∷ k, r)

abbrev pub of_int : ℤ → Bytes
of_int (pos n) = 0 ∷ unary n
of_int (negsuc n) = 1 ∷ unary n

abbrev pub of_value : Option Bytes → Bytes
of_value none = 0 ∷ []
of_value (some v) = 1 ∷ marked v

abbrev serialize : DataFileEntry → Bytes
serialize d = of_int d.tstamp ++ (marked d.key ++ of_value d.value)

abbrev read_value : ℤ → Bytes → Bytes → Option DataFileEntry
read_value t k [] = none
read_value t k (zero ∷ _) = some (record { tstamp = t; key = k; value = none })
read_value t k (suc _ ∷ bs) = some (record { tstamp = t; key = k; value = some (read_marked bs).0 })

abbrev read_key : ℤ → Bytes → Option DataFileEntry
read_key t bs = let (k, r) = read_marked bs in read_value t k r

abbrev deserialize : Bytes → Option DataFileEntry
deserialize [] = none
deserialize (zero ∷ bs) = let (n, r) = read_unary bs in read_key (pos n) r
deserialize (suc _ ∷ bs) = let (n, r) = read_unary bs in read_key (negsuc n) r

read_unary-unary : (n : ℕ) (r : Bytes) → read_unary (unary n ++ r) ≡ (n, r)
read_unary-unary zero r = refl
read_unary-unary (suc n) r = rw (read_unary-unary n r) refl

read_marked-marked : (k r : Bytes) → read_marked (marked k ++ r) ≡ (k, r)
read_marked-marked [] r = refl
read_marked-marked (b ∷ k) r = rw (read_marked-marked k r) refl

read_value-of_value :
    (t : ℤ) (k : Bytes) (v : Option Bytes)
    → read_value t k (of_value v) ≡ some (record { tstamp = t; key = k; value = v })
read_value-of_value t k none = refl
read_value-of_value t k (some v) =
    ap (λ z. some (record { tstamp = t; key = k; value = some z.0 }))
      (ap read_marked (sym (append-nil (marked v))) ∙ read_marked-marked v [])

read_key-marked :
    (t : ℤ) (k : Bytes) (v : Option Bytes)
    → read_key t (marked k ++ of_value v) ≡ some (record { tstamp = t; key = k; value = v })
read_key-marked t k v = rw (read_marked-marked k (of_value v)) (read_value-of_value t k v)

deserialize-serialize :
    (t : ℤ) (k : Bytes) (v : Option Bytes)
    → deserialize (of_int t ++ (marked k ++ of_value v))
      ≡ some (record { tstamp = t; key = k; value = v })
deserialize-serialize (pos n) k v =
    rw (read_unary-unary n (marked k ++ of_value v)) (read_key-marked (pos n) k v)
deserialize-serialize (negsuc n) k v =
    rw (read_unary-unary n (marked k ++ of_value v)) (read_key-marked (negsuc n) k v)

abbrev assign_key :
    (Bytes → Option KeyDirEntry) → Bytes → Option KeyDirEntry → Bytes → Option KeyDirEntry
assign_key m k o j = elim (Bytes-discrete k j) [ yes _ ↦ o | no _ ↦ m j ]

assign_key_self :
    (m : Bytes → Option KeyDirEntry) (k : Bytes) (o : Option KeyDirEntry) → assign_key m k o k ≡ o
assign_key_self m k o = elim (Bytes-discrete k k) as (λ d. elim d [ yes _ ↦ o | no _ ↦ m k ] ≡ o) [
  | yes _ ↦ refl
  | no other ↦ absurd (other refl)
]

assign_key-ne :
    (m : Bytes → Option KeyDirEntry) (k j : Bytes) (o : Option KeyDirEntry)
    → k ≢ j
    → assign_key m k o j ≡ m j
assign_key-ne m k j o h =
    elim (Bytes-discrete k j) as (λ d. elim d [ yes _ ↦ o | no _ ↦ m j ] ≡ m j) [
      | yes same ↦ absurd (h same)
      | no _ ↦ refl
    ]

abbrev assign_reader : (ℕ → Option LogReader) → ℕ → LogReader → ℕ → Option LogReader
assign_reader c i r j = elim (ℕ_discrete i j) [ yes _ ↦ some r | no _ ↦ c j ]

assign_reader_lem :
    (c : ℕ → Option LogReader) (i j : ℕ) (r : LogReader)
    → (assign_reader c i r j ≡ c j) ⊎ ((i ≡ j) × (assign_reader c i r j ≡ some r))
assign_reader_lem c i j r =
    elim (ℕ_discrete i j)
      as (λ d.
        (elim d [ yes _ ↦ some r | no _ ↦ c j ] ≡ c j)
        ⊎ ((i ≡ j) × (elim d [ yes _ ↦ some r | no _ ↦ c j ] ≡ some r))) [
          | yes same ↦ inr (same, refl)
          | no _ ↦ inl refl
        ]

abbrev pub toy : Crates
toy = record {
  serialize = serialize;
  deserialize = deserialize;
  KeyDir = Bytes → Option KeyDirEntry;
  get = λ m k. m k;
  insert = λ m k e. assign_key m k (some e);
  remove = λ m k. assign_key m k none;
  Cache = ℕ → Option LogReader;
  peek = λ c i. c i;
  touch = λ c i. c;
  update = assign_reader;
  put = assign_reader;
}

pub toy-IsLawful : IsLawful toy
toy-IsLawful = record {
  deserialize-serialize = λ d. deserialize-serialize d.tstamp d.key d.value;
  get-insert_self = λ m k e. assign_key_self m k (some e);
  get-insert_ne = λ m k j e h. assign_key-ne m k j (some e) h;
  get-remove_self = λ m k. assign_key_self m k none;
  get-remove_ne = λ m k j h. assign_key-ne m k j none h;
  peek-touch = λ c i j. refl;
  peek-update = λ c i j r. assign_reader_lem c i j r;
  peek-put = λ c i j r. elim (assign_reader_lem c i j r) [ inl h ↦ inl h | inr h ↦ inr (inr h) ];
}
