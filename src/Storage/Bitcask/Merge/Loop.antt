-- ===== src/Storage/Bitcask/Merge/Loop.antt =====
-- The loop of `merge` copies every entry of the key directory that lies in a merged file.
use opal.Prelude.{
  ℕ, suc, ◌+◌, ◌≤◌, ◌<◌, ◌≡◌, inl, inr, refl, sym, ap, ◌∙◌, subst, true, some, List, [], ◌∷◌,
  length, ltb, arith, Bool-cases,
}
use opal.Env.{Bytes}
use opal.Storage.Bitcask.Data.{KeyDirEntry, u64_size, add_u64}
use opal.Storage.Bitcask.Crates.{Crates, IsLawful}
use opal.Storage.Bitcask.Files.{data_of}
use opal.Storage.Bitcask.Store.{Store}
use opal.Storage.Bitcask.Store.Append.{fileid-le}
use opal.Storage.Bitcask.Store.Located.{record_at, IsSound, IsValid}
use opal.Storage.Bitcask.Store.Mapping.{read-IsSound}
use opal.Storage.Bitcask.Merge.{Copies, copied, copy, Copying, copying, contains}
use opal.Storage.Bitcask.Merge.Writer.{
  moved_to, full_round, with_copied, copy_entry, then_round, copy_entries,
}
use opal.Storage.Bitcask.Merge.Copy.{copy-copied, copy_size, copy_same}
use opal.Storage.Bitcask.Merge.Written.{moved_to-IsCopying}
use opal.Storage.Bitcask.Merge.Invariant.{Among, IsCopying, new_files-IsCopying}

module _ (x : Crates) (laws : IsLawful x) (cp : Copies x) (s : Store x) (v : IsValid x s) (max : ℕ)
    (room : (i : ℕ) → max + length (data_of s.files i) < u64_size) where
  with_cache-IsCopying :
      (c : Copying x) (cache : x.Cache)
      → IsCopying x s c
      → IsSound x s cache
      → IsCopying x s (record c { cache = cache })
  with_cache-IsCopying c cache b h = record {
    between = record {
      later = b.between.later;
      old_data = b.between.old_data;
      old_names = b.between.old_names;
      fresh = b.between.fresh;
      fresh_hint = b.between.fresh_hint;
      small = b.between.small;
      sound = h;
      present = b.between.present;
      all_moved = b.between.all_moved;
    };
    above = b.above;
    present = b.present;
    at_pos = b.at_pos;
    hint_file = b.hint_file;
  }

  -- Behind a round: `ps` is what was moved then.
  pub record IsNext (c : Copying x) (n : ℕ) (ps : List (Bytes × KeyDirEntry)) : Type 0 where
    copies : IsCopying x s c
    bounded : c.merge_pos ≤ max
    ids : c.merge_fileid ≤ n
    moved : c.moved ≡ ps

  full_round-IsNext :
      (c : Copying x)
      → IsCopying x s c
      → c.merge_fileid + 1 < u64_size
      → (c' : Copying x) × (full_round max c ≡ copying c') × IsNext c' (suc c.merge_fileid) c.moved
  unfolding full_round
  full_round-IsNext c b next = elim (Bool-cases (ltb max c.merge_pos)) [
    | inl full ↦
        (let (c', eq, b', id, pos, same) = new_files-IsCopying x s c c.merge_fileid b.between in
          let e : add_u64 c.merge_fileid 1 ≡ suc c.merge_fileid = omega (arith, next) in
          (
            c',
            rw full (rw e eq),
            record {
              copies = b';
              bounded = omega (arith, pos);
              ids = omega (arith, id);
              moved = same;
            },
          ))
    | inr fine ↦ (
      c,
      rw fine refl,
      record { copies = b; bounded = ground (arith, fine); ids = omega arith; moved = refl },
    )
  ]

  module _ (c : Copying x) (b : IsCopying x s c) (bounded : c.merge_pos ≤ max)
      (next : c.merge_fileid + 1 < u64_size) (key : Bytes) (e : KeyDirEntry)
      (there : x.get s.keydir key ≡ some e) where
    copy_lem :
        (bs : Bytes) × (cache : x.Cache) × (copy x c.files c.cache e.fileid e.len e.pos
          ≡ (copied bs, cache))
        × (x.deserialize bs ≡ record_at x s.files e)
        × IsSound x s cache
        × (length bs ≤ length (data_of s.files e.fileid))
    copy_lem =
        let (d, w, at, k, val) = (v.entries key e there).holds in
        let (cache, eq, sound) = read-IsSound x s v key e d there at laws c.cache b.between.sound in
        let (bs, copies, des) = copy-copied x s.files c.cache e.fileid e.len e.pos d cache eq in
        let l = fileid-le x s v key e there in
        let same =
          copy_same x s.files c.files e.fileid (b.between.old_data e.fileid l)
            (b.between.old_names e.fileid l) c.cache e.len e.pos in
        (
          bs,
          cache,
          same ∙ copies,
          des ∙ sym at,
          sound,
          copy_size x s.files c.cache e.fileid e.len e.pos bs (ap (λ z. z.0) copies),
        )

    copy_entry-IsNext :
        (c' : Copying x) × (e' : KeyDirEntry) × (copy_entry cp max key e c ≡ copying c')
        × IsNext c' (suc c.merge_fileid) ((key, e') ∷ c.moved)
    unfolding moved_to
    copy_entry-IsNext =
        let (bs, cache, eq, des, sound, size) = copy_lem in
        let c0 : Copying x = record c { cache = cache } in
        let b0 = with_cache-IsCopying c cache b sound in
        let fits : c0.merge_pos + length bs < u64_size =
          omega (arith, bounded, size, room e.fileid) in
        let (c', eq', n) =
          full_round-IsNext (moved_to cp key e bs c0)
            (moved_to-IsCopying x s cp v c0 b0 key e there bs des fits) next in
        (c', _, ap (λ z. with_copied cp max key e z c) eq ∙ eq', n)

  -- The whole loop.
  pub record IsCopied (c : Copying x) (ids : List ℕ) (list : List (Bytes × KeyDirEntry))
      (c' : Copying x) : Type 0 where
    pub copies : IsCopying x s c'
    pub grown : (k : Bytes) (e : KeyDirEntry) → Among k e c.moved → Among k e c'.moved
    pub covers :
        (k : Bytes) (e : KeyDirEntry)
        → Among k e list
        → contains e.fileid ids ≡ true
        → (e' : KeyDirEntry) × Among k e' c'.moved
    pub last : c'.merge_fileid ≤ c.merge_fileid + length list

  pub copy_entries-IsCopied :
      (ids : List ℕ) (list : List (Bytes × KeyDirEntry)) (c : Copying x)
      → IsCopying x s c
      → c.merge_pos ≤ max
      → c.merge_fileid + length list + 1 < u64_size
      → ((k : Bytes) (e : KeyDirEntry) → Among k e list → x.get s.keydir k ≡ some e)
      → (c' : Copying x) × (copy_entries cp max ids list c ≡ copying c') × IsCopied c ids list c'
  unfolding copy_entries
  copy_entries-IsCopied ids [] c b p n h = (
    c,
    refl,
    record { copies = b; grown = λ k e m. m; covers = λ k e m t. absurd m; last = omega arith },
  )
  copy_entries-IsCopied ids ((key, e) ∷ rest) c b p n h =
      elim (Bool-cases (contains e.fileid ids)) [
        | inl yes_in ↦
            (let (c1, e1, eq, i) =
                copy_entry-IsNext c b p (omega (arith, n)) key e (h key e (inl (refl, refl))) in
              let id = i.ids in
              let (c2, eq', g) =
                copy_entries-IsCopied ids rest c1 i.copies i.bounded (omega (arith, n, id))
                  (λ k f m. h k f (inr m)) in
              let first : Among key e1 c2.moved =
                g.grown key e1 (subst (Among key e1) (sym i.moved) (inl (refl, refl))) in
              let last = g.last in
              (
                c2,
                rw yes_in (ap (λ z. then_round z (copy_entries cp max ids rest)) eq ∙ eq'),
                record {
                  copies = g.copies;
                  grown = λ k f m. g.grown k f (subst (Among k f) (sym i.moved) (inr m));
                  covers = λ k f m t. elim m [
                    | inl (pk, pe) ↦ (e1, subst (λ z. Among z e1 c2.moved) (sym pk) first)
                    | inr m' ↦ g.covers k f m' t
                  ];
                  last = omega (arith, id, last);
                },
              ))
        | inr not_in ↦
            (let (c2, eq', g) =
                copy_entries-IsCopied ids rest c b p (omega (arith, n)) (λ k f m. h k f (inr m)) in
              let last = g.last in
              (
                c2,
                rw not_in eq',
                record {
                  copies = g.copies;
                  grown = g.grown;
                  covers = λ k f m t. elim m [
                    | inl (pk, pe) ↦ absurd (
                        let z : contains e.fileid ids ≡ true =
                          subst (λ w. contains w.fileid ids ≡ true) pe t in
                        ground (arith, z, not_in))
                    | inr m' ↦ g.covers k f m' t
                  ];
                  last = omega (arith, last);
                },
              ))
      ]
