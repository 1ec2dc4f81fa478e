-- ===== src/Storage/Bitcask/Merge/Copy.antt =====
-- A copy takes the bytes that a read would decode, and leaves the cache as the read would.
use opal.Prelude.{
  ℕ, ◌-◌, ◌≤◌, ◌≡◌, refl, sym, ap, ◌∙◌, none, some, Option-cases, inl, inr, length, take, drop,
  length-take, length-drop, arith, Bool-cases,
}
use opal.Env.{Bytes}
use opal.Storage.Bitcask.Data.{DataFileEntry, io, not_found, add_u64}
use opal.Storage.Bitcask.Crates.{Crates, LogReader}
use opal.Storage.Bitcask.Files.{Files, datafile_name, data_of, exists_in}
use opal.Storage.Bitcask.Log.{
  Fetched, fetched, failed, panicked, decoded, in_mapping, remap, at, read, read_opened,
  read_cached,
}
use opal.Storage.Bitcask.Merge.{
  Copied, copied, not_opened, out_of_range, copy_raw, copy_opened, copy_cached, copy,
}

module _ (x : Crates) where
  abbrev decode : Copied → Fetched
  decode (copied bs) = decoded (x.deserialize bs)
  decode not_opened = failed (io not_found)
  decode out_of_range = panicked

  at-copy_raw :
      (fs : Files) (i : ℕ) (r : LogReader) (len pos : ℕ)
      → at x fs i r len pos ≡ (decode (copy_raw x fs i r len pos).0, (copy_raw x fs i r len pos).1)
  unfolding at copy_raw
  at-copy_raw fs i r len pos =
      elim (Bool-cases (in_mapping pos (add_u64 pos len) (remap x fs i r pos).mapped)) [
        | inl h ↦ rw h refl
        | inr h ↦ rw h refl
      ]

  module _ (fs : Files) (c : x.Cache) (i len pos : ℕ) where
    read-copy :
        read x fs c i len pos ≡ (decode (copy x fs c i len pos).0, (copy x fs c i len pos).1)
    unfolding read copy read_opened read_cached copy_opened copy_cached
    read-copy = elim (Option-cases (x.peek c i)) [
      | inr (r, p) ↦
          rw (p, read, copy)
            (ap (λ z. (z.0, x.update (x.touch c i) i z.1)) (at-copy_raw fs i r len pos))
      | inl p ↦
          rw (p, read, copy)
            (elim (Bool-cases (exists_in fs (datafile_name i))) [
              | inl h ↦
                  rw (h, read_opened, copy_opened)
                    (ap (λ z. (z.0, x.put c i z.1)) (at-copy_raw fs i _ len pos))
              | inr h ↦ rw (h, read_opened, copy_opened) refl
            ])
    ]

    decode-fetched :
        (o : Copied) (d : DataFileEntry)
        → decode o ≡ fetched d
        → (bs : Bytes) × (o ≡ copied bs) × (x.deserialize bs ≡ some d)
    decode-fetched (copied bs) d h = elim (Option-cases (x.deserialize bs)) [
      | inl p ↦
          absurd (let q : decoded none ≡ fetched d = ap decoded (sym p) ∙ h in ground (arith, q))
      | inr (d', p) ↦
          (bs, refl, (let q : fetched d' ≡ fetched d = ap decoded (sym p) ∙ h in p ∙ cc (q)))
    ]
    decode-fetched not_opened d h = absurd (ground (arith, h))
    decode-fetched out_of_range d h = absurd (ground (arith, h))

    pub copy-copied :
        (d : DataFileEntry) (c' : x.Cache)
        → read x fs c i len pos ≡ (fetched d, c')
        → (bs : Bytes) × (copy x fs c i len pos ≡ (copied bs, c')) × (x.deserialize bs ≡ some d)
    copy-copied d c' h =
        let e = sym read-copy ∙ h in
        let (bs, p, q) = decode-fetched (copy x fs c i len pos).0 d (ap (λ z. z.0) e) in
        (bs, (let r : (copy x fs c i len pos).1 ≡ c' = ap (λ z. z.1) e in cc (p, r)), q)

    -- No more bytes than the file has.
    copy_raw_size :
        (r : LogReader) (bs : Bytes)
        → (copy_raw x fs i r len pos).0 ≡ copied bs
        → length bs ≤ length (data_of fs i)
    unfolding copy_raw
    copy_raw_size r bs h =
        elim (Bool-cases (in_mapping pos (add_u64 pos len) (remap x fs i r pos).mapped)) [
          | inl p ↦
              (let q : copied (take (add_u64 pos len - pos) (drop pos (data_of fs i))) ≡ copied bs =
                  rw p at h in
                let e : take (add_u64 pos len - pos) (drop pos (data_of fs i)) ≡ bs = cc q in
                omega (
                  arith,
                  ap length e,
                  length-take (add_u64 pos len - pos) (drop pos (data_of fs i)),
                  length-drop pos (data_of fs i),
                ))
          | inr p ↦ absurd (let q : out_of_range ≡ copied bs = rw p at h in ground (arith, q))
        ]

    pub copy_size :
        (bs : Bytes) → (copy x fs c i len pos).0 ≡ copied bs → length bs ≤ length (data_of fs i)
    unfolding copy copy_opened copy_cached
    copy_size bs h = elim (Option-cases (x.peek c i)) [
      | inr (r, p) ↦ copy_raw_size r bs (rw (p, copy) at h)
      | inl p ↦ elim (Bool-cases (exists_in fs (datafile_name i))) [
        | inl q ↦ copy_raw_size _ bs (rw (q, copy_opened) at (rw (p, copy) at h))
        | inr q ↦ absurd (
            let z : not_opened ≡ copied bs = rw (q, copy_opened) at (rw (p, copy) at h) in
            ground (arith, z))
      ]
    ]

  -- Only the file that is read matters.
  module _ (fs fs' : Files) (i : ℕ) (d : data_of fs' i ≡ data_of fs i) where
    copy_raw_same :
        (r : LogReader) (len pos : ℕ) → copy_raw x fs' i r len pos ≡ copy_raw x fs i r len pos
    unfolding copy_raw remap
    copy_raw_same r len pos = rw d refl

    pub copy_same :
        exists_in fs' (datafile_name i) ≡ exists_in fs (datafile_name i)
        → (c : x.Cache) (len pos : ℕ) → copy x fs' c i len pos ≡ copy x fs c i len pos
    unfolding copy copy_opened copy_cached
    copy_same e c len pos = elim (Option-cases (x.peek c i)) [
      | inr (r, p) ↦
          rw (p, copy) (ap (λ z. (z.0, x.update (x.touch c i) i z.1)) (copy_raw_same r len pos))
      | inl p ↦ rw (p, copy) (rw (e, copy_opened) (rw (d, copy_opened) refl))
    ]
