-- ===== src/Storage/Bitcask/Merge/Settle.antt =====
-- What `merge` does behind its loop: the key directory points at the copies, and the merged files go.
use opal.Prelude.{
  ℕ, suc, ◌+◌, ◌≤◌, ◌<◌, ◌≡◌, ◌⊎◌, inl, inr, refl, sym, ap, ◌∙◌, subst, true, false, none, some,
  Option-cases, List, [], ◌∷◌, ◌++◌, append-nil, length, ◌==◌, if◌then◌else◌, arith, Bool-cases,
}
use opal.Env.{Bytes}
use opal.Storage.Bitcask.Data.{KeyDirEntry, u64_size, add_u64}
use opal.Storage.Bitcask.Crates.{Crates, IsLawful}
use opal.Storage.Bitcask.Files.{
  datafile_name, hintfile_name, data_of, exists_in, created, create-fresh, data_of-created,
  exists_in-created, hint_in-created,
}
use opal.Storage.Bitcask.Log.{new_writer}
use opal.Storage.Bitcask.Store.{Store, ok, new_active_datafile}
use opal.Storage.Bitcask.Store.Append.{fileid-le}
use opal.Storage.Bitcask.Store.Growth.{record_at-append, IsRecord-append}
use opal.Storage.Bitcask.Store.Located.{
  record_at, value_at, value_in, view, IsRecord, IsSound, AllSound, IsValid,
}
use opal.Storage.Bitcask.Merge.{Copying, contains}
use opal.Storage.Bitcask.Merge.Writer.{remove_files, settled}
use opal.Storage.Bitcask.Merge.Present.{AllPresent, AllPresent-remove_all_stats}
use opal.Storage.Bitcask.Merge.Invariant.{Among, IsMoved, AllMoved-Among, IsCopying}
use opal.Storage.Bitcask.Merge.Removed.{
  data_of-remove_files, exists_in-remove_files, hint_in-remove_files, set_entries-cases,
}

module _ (x : Crates) (laws : IsLawful x) where
  -- The state in the end, with the copies that the loop left.
  module _ (s : Store x) (v : IsValid x s) (ids : List ℕ)
      (old : (i : ℕ) → contains i ids ≡ true → i ≤ s.active_fileid) (c : Copying x)
      (b : IsCopying x s c) (next : c.merge_fileid + 1 < u64_size)
      (covers : (k : Bytes) (e : KeyDirEntry)
        → x.get s.keydir k ≡ some e
        → contains e.fileid ids ≡ true
        → (e' : KeyDirEntry) × Among k e' c.moved) where
    abbrev pub merged : Store x
    merged = record (settled ids s c) {
      files = created (remove_files ids c.files) (suc c.merge_fileid);
      active_fileid = suc c.merge_fileid;
      writer =
          new_writer (created (remove_files ids c.files) (suc c.merge_fileid))
            (datafile_name (suc c.merge_fileid));
      written_bytes = 0;
    }

    bytes :
        (i : ℕ)
        → data_of merged.files i ≡ (if suc c.merge_fileid == i then [] else data_of c.files i)
    bytes i =
        data_of-created (remove_files ids c.files) (suc c.merge_fileid) i
        ∙ ap (λ z. if suc c.merge_fileid == i then [] else z) (data_of-remove_files ids c.files i)

    names :
        (i : ℕ)
        → exists_in merged.files (datafile_name i) ≡ (
            if suc c.merge_fileid == i
            then true
            else if contains i ids
            then false
            else exists_in c.files (datafile_name i))
    names i =
        exists_in-created (remove_files ids c.files) (suc c.merge_fileid) i
        ∙ ap (λ z. if suc c.merge_fileid == i then true else z)
            (exists_in-remove_files ids c.files i)

    -- An entry in the end: its record is the one that its key had before.
    record IsKept (k : Bytes) (e : KeyDirEntry) : Type 0 where
      before : KeyDirEntry
      there : x.get s.keydir k ≡ some before
      same : record_at x merged.files e ≡ record_at x s.files before
      whole : IsRecord x merged.files k e
      place : (e ≡ before) ⊎ (s.active_fileid < e.fileid)

    copied-IsKept :
        (k : Bytes) (e : KeyDirEntry) → IsMoved x s c.files c.merge_fileid k e → IsKept k e
    copied-IsKept k e m =
        let l = m.below in
        let a = m.above in
        let eq : data_of merged.files e.fileid ≡ data_of c.files e.fileid ++ [] =
          ground (arith, bytes e.fileid, append-nil (data_of c.files e.fileid)) in
        record {
          before = m.old;
          there = m.there;
          same = record_at-append x c.files merged.files e [] eq m.whole.inside ∙ m.same;
          whole =
              IsRecord-append x c.files merged.files e [] eq k
                (ground (arith, names e.fileid, m.whole.present, old e.fileid)) m.whole;
          place = inr m.above;
        }

    left-IsKept :
        (k : Bytes) (e : KeyDirEntry)
        → x.get s.keydir k ≡ some e
        → ((f : KeyDirEntry) → Among k f c.moved → ⊥)
        → IsKept k e
    left-IsKept k e h n =
        let r = v.entries k e h in
        let l = fileid-le x s v k e h in
        let a = b.above in
        let eq : data_of merged.files e.fileid ≡ data_of s.files e.fileid ++ [] = ground (
          arith,
          bytes e.fileid,
          b.between.old_data e.fileid l,
          append-nil (data_of s.files e.fileid),
        ) in
        let stays : contains e.fileid ids ≡ false = elim (Bool-cases (contains e.fileid ids)) [
          | inl t ↦ (let (f, m) = covers k e h t in absurd (n f m))
          | inr t ↦ t
        ] in
        record {
          before = e;
          there = h;
          same = record_at-append x s.files merged.files e [] eq r.inside;
          whole =
              IsRecord-append x s.files merged.files e [] eq k
                (ground (arith, names e.fileid, b.between.old_names e.fileid l, r.present, stays))
                r;
          place = inl refl;
        }

    keys-cases :
        (k : Bytes)
        → ((e : KeyDirEntry) × (x.get merged.keydir k ≡ some e) × IsKept k e)
          ⊎ ((x.get merged.keydir k ≡ none) × (x.get s.keydir k ≡ none))
    unfolding settled
    keys-cases k = elim (set_entries-cases x laws c.moved s.keydir k) [
      | inl (e, a, h) ↦ inl (
        e,
        h,
        copied-IsKept k e
            (AllMoved-Among x s c.files c.merge_fileid c.moved k e b.between.all_moved a),
      )
      | inr (h, n) ↦ elim (Option-cases (x.get s.keydir k)) [
        | inl p ↦ inr (h ∙ p, p)
        | inr (e, p) ↦ inl (e, h ∙ p, left-IsKept k e p n)
      ]
    ]

    kept : (k : Bytes) (e : KeyDirEntry) → x.get merged.keydir k ≡ some e → IsKept k e
    kept k e h = elim (keys-cases k) [
      | inl (f, p, g) ↦ (let same : f ≡ e = cc (p, h) in subst (IsKept k) same g)
      | inr (p, _) ↦ absurd (let z : none ≡ some e = sym p ∙ h in ground (arith, z))
    ]

    pub merged-view : (k : Bytes) → view x merged k ≡ view x s k
    merged-view k = elim (keys-cases k) [
      | inl (e, p, g) ↦
          ap (value_at x merged.files) p
          ∙ ap (value_in x) g.same
          ∙ sym (ap (value_at x s.files) g.there)
      | inr (p, q) ↦ ap (value_at x merged.files) p ∙ sym (ap (value_at x s.files) q)
    ]

    pub merged-IsSound : (cache : x.Cache) → IsSound x s cache → IsSound x merged cache
    merged-IsSound cache h =
        let a = b.above in
        record {
          within = λ i r p. ground (
            arith,
            ap length (bytes i),
            h.within i r p,
            h.known i r p,
            ap length (b.between.old_data i (h.known i r p)),
          );
          known = λ i r p. omega (arith, h.known i r p, a);
          clears = λ i r k e p q w.
              let g = kept k e q in
              elim g.place [
                | inl same ↦ h.clears i r k e p (g.there ∙ ap some (sym same)) w
                | inr above ↦ absurd (omega (arith, h.known i r p, above, w))
              ];
        }

    merged-AllSound : (cs : List x.Cache) → AllSound x s cs → AllSound x merged cs
    merged-AllSound [] h = tt
    merged-AllSound (d ∷ cs) h = (merged-IsSound d h.0, merged-AllSound cs h.1)

    pub merged-IsValid : IsValid x merged
    unfolding settled new_writer
    merged-IsValid = record {
      entries = λ k e h. (kept k e h).whole;
      writes_active = refl;
      active_exists = ground (arith, names (suc c.merge_fileid));
      at_end = refl;
      fresh = λ i h. ground (arith, names i, b.between.fresh i (omega (arith, h)));
      small = λ i. ground (arith, ap length (bytes i), b.between.small i);
      sound = merged-AllSound s.readers v.sound;
    }

    pub merged_gone :
        (i : ℕ) → contains i ids ≡ true → exists_in merged.files (datafile_name i) ≡ false
    merged_gone i h = let a = b.above in ground (arith, names i, h, old i h)

    pub merged-AllPresent : AllPresent merged.files merged.stats
    unfolding settled
    merged-AllPresent =
        AllPresent-remove_all_stats c.files merged.files ids c.stats
          (λ i p n. ground (arith, names i, p, n)) b.between.present

    pub merged_hints :
        (i : ℕ) → suc c.merge_fileid < i → exists_in merged.files (hintfile_name i) ≡ false
    merged_hints i h =
        hint_in-created (remove_files ids c.files) (suc c.merge_fileid) i
        ∙ hint_in-remove_files ids c.files i (b.between.fresh_hint i (omega (arith, h)))

    pub new_active_datafile-merged :
        new_active_datafile (add_u64 c.merge_fileid 1) (settled ids s c) ≡ ok tt merged
    unfolding new_active_datafile settled
    new_active_datafile-merged =
        let e : add_u64 c.merge_fileid 1 ≡ suc c.merge_fileid = omega (arith, next) in
        let free : exists_in (remove_files ids c.files) (datafile_name (suc c.merge_fileid))
            ≡ false =
          ground (
            arith,
            exists_in-remove_files ids c.files (suc c.merge_fileid),
            b.between.fresh (suc c.merge_fileid) (omega arith),
          ) in
        rw e (
          rw
            (create-fresh (remove_files ids c.files) (suc c.merge_fileid) free, new_active_datafile)
            refl)
