-- ===== src/Storage/Bitcask/Store/Mapping.antt =====
-- A read through a mapping that satisfies the invariant never leaves it, whether the file had to be
-- mapped again or not.
use opal.Prelude.{
  ℕ, ◌+◌, ◌-◌, ◌≤◌, ◌≡◌, ◌⊎◌, inl, inr, refl, sym, ap, ◌∙◌, subst, true, false, none, some, length,
  take, drop, arith, leb, Bool-cases, Option-cases, if◌then◌else◌,
}
use opal.Env.{Bytes}
use opal.Storage.Bitcask.Data.{DataFileEntry, KeyDirEntry, add_u64}
use opal.Storage.Bitcask.Crates.{Crates, IsLawful, LogReader}
use opal.Storage.Bitcask.Files.{data_of}
use opal.Storage.Bitcask.Log.{
  fetched, panicked, decoded, in_mapping, remap, at, read, read_opened, read_cached,
}
use opal.Storage.Bitcask.Store.{Store}
use opal.Storage.Bitcask.Store.Append.{fileid-le}
use opal.Storage.Bitcask.Store.Located.{record_at, IsSound, IsValid, Clears}

updated :
    {x : Crates} (laws : IsLawful x) (c : x.Cache) (i : ℕ) (r : LogReader) (j : ℕ)
    → (x.peek (x.update (x.touch c i) i r) j ≡ x.peek c j)
      ⊎ (x.peek (x.update (x.touch c i) i r) j ≡ none)
      ⊎ ((i ≡ j) × (x.peek (x.update (x.touch c i) i r) j ≡ some r))
updated {x = x} laws c i r j = elim (laws.peek-update (x.touch c i) i j r) [
  | inl same ↦ inl (same ∙ laws.peek-touch c i j)
  | inr new ↦ inr (inr new)
]

module _ (x : Crates) (s : Store x) (v : IsValid x s) where
  -- What `IsSound` says of one mapping.
  record IsGood (i : ℕ) (r : LogReader) : Type 0 where
    within : r.mapped ≤ length (data_of s.files i)
    known : i ≤ s.active_fileid
    clears :
        (k : Bytes) (e : KeyDirEntry)
        → x.get s.keydir k ≡ some e
        → e.fileid ≡ i
        → Clears x r.mapped e

  found-IsGood :
      (c : x.Cache) (i : ℕ) (r : LogReader) → IsSound x s c → x.peek c i ≡ some r → IsGood i r
  found-IsGood c i r h p = record {
    within = h.within i r p;
    known = h.known i r p;
    clears = λ k e q w. h.clears i r k e p q w;
  }

  abbrev whole : ℕ → LogReader
  whole i = record { mapped = length (data_of s.files i) }

  whole-IsGood : (i : ℕ) → i ≤ s.active_fileid → IsGood i (whole i)
  whole-IsGood i h = record {
    within = omega arith;
    known = h;
    clears = λ k e q w.
        inl (subst (λ j. e.pos + e.len ≤ length (data_of s.files j)) w (v.entries k e q).inside);
  }

  replaced-IsSound :
      (c c' : x.Cache) (i : ℕ) (r : LogReader)
      → IsGood i r
      → ((j : ℕ)
          → (x.peek c' j ≡ x.peek c j) ⊎ (x.peek c' j ≡ none) ⊎ ((i ≡ j) × (x.peek c' j ≡ some r)))
      → IsSound x s c
      → IsSound x s c'
  replaced-IsSound c c' i r g look h =
      let good : (j : ℕ) (q : LogReader) → x.peek c' j ≡ some q → IsGood j q = λ j q p.
        elim (look j) [
          | inl same ↦ found-IsGood c j q h (sym same ∙ p)
          | inr (inl gone) ↦ cc (gone, p)
          | inr (inr (ij, new)) ↦
              (let e : r ≡ q = cc (new, p) in
                subst (λ z. IsGood j z) e (subst (λ z. IsGood z r) ij g))
        ] in
      record {
        within = λ j q p. (good j q p).within;
        known = λ j q p. (good j q p).known;
        clears = λ j q k e p. (good j q p).clears k e;
      }

  module _ (key : Bytes) (e : KeyDirEntry) (d : DataFileEntry) (there : x.get s.keydir key ≡ some e)
      (holds : record_at x s.files e ≡ some d) where
    inside : e.pos + e.len ≤ length (data_of s.files e.fileid)
    inside = (v.entries key e there).inside

    end_lem : add_u64 e.pos e.len ≡ e.pos + e.len
    end_lem = omega (arith, inside, v.small e.fileid)

    slice_lem :
        (r : LogReader)
        → e.pos + e.len ≤ r.mapped
        → (if in_mapping e.pos (add_u64 e.pos e.len) r.mapped
            then decoded (
                x.deserialize
                  (take (add_u64 e.pos e.len - e.pos) (drop e.pos (data_of s.files e.fileid))))
            else panicked)
          ≡ fetched d
    unfolding record_at
    slice_lem r h =
        let l : add_u64 e.pos e.len - e.pos ≡ e.len = omega (arith, end_lem) in
        let ok : in_mapping e.pos (add_u64 e.pos e.len) r.mapped ≡ true = ground (arith, end_lem) in
        rw ok (rw l (rw holds refl))

    at-remap :
        (r r' : LogReader)
        → remap x s.files e.fileid r e.pos ≡ r'
        → e.pos + e.len ≤ r'.mapped
        → at x s.files e.fileid r e.len e.pos ≡ (fetched d, r')
    unfolding at
    at-remap r r' h p = rw h (ap (λ z. (z, r')) (slice_lem r' p))

    at-IsGood :
        (r : LogReader)
        → IsGood e.fileid r
        → (r' : LogReader) × (at x s.files e.fileid r e.len e.pos ≡ (fetched d, r'))
          × IsGood e.fileid r'
    unfolding remap
    at-IsGood r g = elim (Bool-cases (leb r.mapped e.pos)) [
      | inl over ↦ (
        whole e.fileid,
        at-remap r (whole e.fileid) (rw over refl) inside,
        whole-IsGood e.fileid g.known,
      )
      | inr enough ↦
          (r, at-remap r r (rw enough refl) (reaches r (g.clears key e there refl) enough), g)
    ]
      where
        reaches :
            (r : LogReader)
            → Clears x r.mapped e
            → leb r.mapped e.pos ≡ false
            → e.pos + e.len ≤ r.mapped
        reaches r c h = ground (arith, c)

    file_known : e.fileid ≤ s.active_fileid
    file_known = fileid-le x s v key e there

    through_cached :
        (c : x.Cache) (r r' : LogReader)
        → x.peek c e.fileid ≡ some r
        → at x s.files e.fileid r e.len e.pos ≡ (fetched d, r')
        → read x s.files c e.fileid e.len e.pos
          ≡ (fetched d, x.update (x.touch c e.fileid) e.fileid r')
    unfolding read read_cached
    through_cached c r r' p eq =
        rw (p, read) (ap (λ z. (z.0, x.update (x.touch c e.fileid) e.fileid z.1)) eq)

    through_opened :
        (c : x.Cache) (r' : LogReader)
        → x.peek c e.fileid ≡ none
        → at x s.files e.fileid (whole e.fileid) e.len e.pos ≡ (fetched d, r')
        → read x s.files c e.fileid e.len e.pos ≡ (fetched d, x.put c e.fileid r')
    unfolding read read_opened
    through_opened c r' p eq =
        let here = (v.entries key e there).present in
        rw (p, read) (rw (here, read_opened) (ap (λ z. (z.0, x.put c e.fileid z.1)) eq))

    pub read-IsSound :
        (laws : IsLawful x) (c : x.Cache)
        → IsSound x s c
        → (c' : x.Cache) × (read x s.files c e.fileid e.len e.pos ≡ (fetched d, c'))
          × IsSound x s c'
    read-IsSound laws c h = elim (Option-cases (x.peek c e.fileid)) [
      | inr (r, p) ↦
          (let (r', eq, g) = at-IsGood r (found-IsGood c e.fileid r h p) in
            (
              x.update (x.touch c e.fileid) e.fileid r',
              through_cached c r r' p eq,
              replaced-IsSound c (x.update (x.touch c e.fileid) e.fileid r') e.fileid r' g
                  (updated laws c e.fileid r') h,
            ))
      | inl p ↦
          (let (r', eq, g) = at-IsGood (whole e.fileid) (whole-IsGood e.fileid file_known) in
            (
              x.put c e.fileid r',
              through_opened c r' p eq,
              replaced-IsSound c (x.put c e.fileid r') e.fileid r' g
                  (λ j. laws.peek-put c e.fileid j r') h,
            ))
    ]
