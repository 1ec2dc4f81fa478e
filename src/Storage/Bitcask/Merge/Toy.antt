-- ===== src/Storage/Bitcask/Merge/Toy.antt =====
-- The small instance of the crates with a key directory that is a list, so that it can be gone through.
use opal.Prelude.{◌≡◌, ◌≢◌, inl, inr, refl, sym, ap, ◌∙◌, Option, none, some, List, [], ◌∷◌, arith}
use opal.Env.{Bytes}
use opal.Storage.Bitcask.Data.{KeyDirEntry}
use opal.Storage.Bitcask.Crates.{Crates, IsLawful}
use opal.Storage.Bitcask.Store.Append.{Bytes-discrete}
use opal.Storage.Bitcask.Store.Toy.{toy, toy-IsLawful}
use opal.Storage.Bitcask.Merge.{Copies}
use opal.Storage.Bitcask.Merge.Invariant.{Among}
use opal.Storage.Bitcask.Merge.Keeps.{IsIteration}

abbrev Entries : Type 0
Entries = List (Bytes × KeyDirEntry)

abbrev find : Entries → Bytes → Option KeyDirEntry
find [] k = none
find ((j, e) ∷ m) k = elim (Bytes-discrete j k) [ yes _ ↦ some e | no _ ↦ find m k ]

abbrev without : Bytes → Entries → Entries
without k [] = []
without k ((j, e) ∷ m) =
    let rest = without k m in elim (Bytes-discrete j k) [ yes _ ↦ rest | no _ ↦ (j, e) ∷ rest ]

find_self : (m : Entries) (k : Bytes) (e : KeyDirEntry) → find ((k, e) ∷ m) k ≡ some e
find_self m k e =
    elim (Bytes-discrete k k) as (λ d. elim d [ yes _ ↦ some e | no _ ↦ find m k ] ≡ some e) [
      | yes _ ↦ refl
      | no other ↦ absurd (other refl)
    ]

find-ne : (m : Entries) (j k : Bytes) (e : KeyDirEntry) → j ≢ k → find ((j, e) ∷ m) k ≡ find m k
find-ne m j k e h =
    elim (Bytes-discrete j k) as (λ d. elim d [ yes _ ↦ some e | no _ ↦ find m k ] ≡ find m k) [
      | yes same ↦ absurd (h same)
      | no _ ↦ refl
    ]

without_self : (m : Entries) (k : Bytes) → find (without k m) k ≡ none
without_self [] k = refl
without_self ((j, e) ∷ m) k =
    elim (Bytes-discrete j k)
      as (λ d. find (elim d [ yes _ ↦ without k m | no _ ↦ (j, e) ∷ without k m ]) k ≡ none) [
        | yes _ ↦ without_self m k
        | no other ↦ find-ne (without k m) j k e other ∙ without_self m k
      ]

find-without : (m : Entries) (k j : Bytes) → k ≢ j → find (without k m) j ≡ find m j
find-without [] k j h = refl
find-without ((i, e) ∷ m) k j h =
    elim (Bytes-discrete i k)
      as (λ d.
        find (elim d [ yes _ ↦ without k m | no _ ↦ (i, e) ∷ without k m ]) j
        ≡ find ((i, e) ∷ m) j) [
          | yes same ↦ find-without m k j h ∙ sym (find-ne m i j e (λ p. h (sym same ∙ p)))
          | no _ ↦
              elim (Bytes-discrete i j)
                as (λ d.
                  elim d [ yes _ ↦ some e | no _ ↦ find (without k m) j ]
                  ≡ elim d [ yes _ ↦ some e | no _ ↦ find m j ]) [
                    | yes _ ↦ refl
                    | no _ ↦ find-without m k j h
                  ]
        ]

-- Each key once, with its first entry.
abbrev entries_of : Entries → Entries
entries_of [] = []
entries_of ((j, e) ∷ m) = (j, e) ∷ without j (entries_of m)

Among-find : (m : Entries) (k : Bytes) (e : KeyDirEntry) → find m k ≡ some e → Among k e m
Among-find [] k e h = absurd (ground (arith, h))
Among-find ((j, f) ∷ m) k e h = elim (Bytes-discrete j k) [
  | yes same ↦
      inl (sym same, (let p : find ((j, f) ∷ m) j ≡ some f = find_self m j f in cc (p, h, same)))
  | no other ↦ inr (Among-find m k e (sym (find-ne m j k f other) ∙ h))
]

find-entries_of : (m : Entries) (k : Bytes) → find (entries_of m) k ≡ find m k
find-entries_of [] k = refl
find-entries_of ((j, f) ∷ m) k =
    elim (Bytes-discrete j k)
      as (λ d.
        elim d [ yes _ ↦ some f | no _ ↦ find (without j (entries_of m)) k ]
        ≡ elim d [ yes _ ↦ some f | no _ ↦ find m k ]) [
          | yes _ ↦ refl
          | no other ↦ find-without (entries_of m) j k other ∙ find-entries_of m k
        ]

-- What stays without a key is about other keys.
Among-without :
    (m : Entries) (j k : Bytes) (e : KeyDirEntry) → Among k e (without j m) → (j ≢ k) × Among k e m
Among-without [] j k e = λ h. absurd h
Among-without ((i, f) ∷ m) j k e =
    elim (Bytes-discrete i j)
      as (λ d.
        Among k e (elim d [ yes _ ↦ without j m | no _ ↦ (i, f) ∷ without j m ])
        → (j ≢ k) × Among k e ((i, f) ∷ m)) [
          | yes _ ↦ λ h. (let (n, a) = Among-without m j k e h in (n, inr a))
          | no other ↦ λ h. elim h [
            | inl (p, q) ↦ (λ z. other (sym p ∙ sym z), inl (p, q))
            | inr a ↦ (let (n, b) = Among-without m j k e a in (n, inr b))
          ]
        ]

find-Among :
    (m : Entries) (k : Bytes) (e : KeyDirEntry) → Among k e (entries_of m) → find m k ≡ some e
find-Among [] k e h = absurd h
find-Among ((j, f) ∷ m) k e (inl (p, q)) =
    ap (find ((j, f) ∷ m)) p ∙ find_self m j f ∙ ap some (sym q)
find-Among ((j, f) ∷ m) k e (inr a) =
    let (other, b) = Among-without (entries_of m) j k e a in
    find-ne m j k f other ∙ find-Among m k e b

abbrev pub small : Crates
small = record {
  serialize = toy.serialize;
  deserialize = toy.deserialize;
  KeyDir = Entries;
  get = find;
  insert = λ m k e. (k, e) ∷ m;
  remove = λ m k. without k m;
  Cache = toy.Cache;
  peek = toy.peek;
  touch = toy.touch;
  update = toy.update;
  put = toy.put;
}

pub small-IsLawful : IsLawful small
small-IsLawful = record {
  deserialize-serialize = toy-IsLawful.deserialize-serialize;
  get-insert_self = find_self;
  get-insert_ne = λ m k j e h. find-ne m k j e h;
  get-remove_self = without_self;
  get-remove_ne = find-without;
  peek-touch = toy-IsLawful.peek-touch;
  peek-update = toy-IsLawful.peek-update;
  peek-put = toy-IsLawful.peek-put;
}

abbrev pub small_copies : Copies small
small_copies = record { entries_of = entries_of; serialize_hint = λ h. h.key }

pub small-IsIteration : IsIteration small small_copies
small-IsIteration = record {
  get-entries_of = λ m k e h. Among-find (entries_of m) k e (find-entries_of m k ∙ h);
  entries_of-get = find-Among;
}
