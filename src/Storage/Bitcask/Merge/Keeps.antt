-- ===== src/Storage/Bitcask/Merge/Keeps.antt =====
-- `Writer::merge` changes nothing that a store holds, and when `Handle::merge` comes to it.
use opal.Prelude.{
  ℕ, suc, ◌+◌, ◌≤◌, ◌<◌, ◌≡◌, inl, inr, refl, ap, ◌∙◌, true, false, some, List, [], ◌∷◌, length,
  arith, Bool-cases, dec_le,
}
use opal.Env.{Bytes}
use opal.Storage.Bitcask.Data.{KeyDirEntry, closed, u64_size, add_u64}
use opal.Storage.Bitcask.Config.{Floats, MergeStrategy, MergeThresholds}
use opal.Storage.Bitcask.Crates.{Crates, IsLawful}
use opal.Storage.Bitcask.Files.{Files, datafile_name, hintfile_name, data_of, exists_in}
use opal.Storage.Bitcask.Stats.{Stats}
use opal.Storage.Bitcask.Store.Located.{view, IsSound, IsValid}
use opal.Storage.Bitcask.Recovery.{into_set}
use opal.Storage.Bitcask.Merge.{
  Copies, Compares, Merging, finished, fileids_to_merge, selected, contains,
}
use opal.Storage.Bitcask.Merge.Writer.{
  begin, new_files, settle, settled, then_round, copy_entries, merge_ids, merge, as_outcome,
}
use opal.Storage.Bitcask.Merge.Present.{AllPresent}
use opal.Storage.Bitcask.Merge.Triggers.{contains-into_set}
use opal.Storage.Bitcask.Merge.Invariant.{Among, IsBetween, new_files-IsCopying}
use opal.Storage.Bitcask.Merge.Loop.{copy_entries-IsCopied}
use opal.Storage.Bitcask.Merge.Settle.{
  merged-AllPresent, merged, merged-view, merged-IsSound, merged-IsValid, merged_gone, merged_hints,
  new_active_datafile-merged,
}

-- The documented behaviour of the iteration.
pub record IsIteration (x : Crates) (cp : Copies x) : Type 0 where
  pub get-entries_of :
      (m : x.KeyDir) (k : Bytes) (e : KeyDirEntry)
      → x.get m k ≡ some e
      → Among k e (cp.entries_of m)
  pub entries_of-get :
      (m : x.KeyDir) (k : Bytes) (e : KeyDirEntry)
      → Among k e (cp.entries_of m)
      → x.get m k ≡ some e

-- A valid store, with a sound cache for its writer, no hint files above the active file, room for the
-- largest file behind a full one, and ids for one file per entry and three more.
pub record IsMergeable (x : Crates) (cp : Copies x) (t : Merging x) : Type 0 where
  pub valid : IsValid x t.store
  pub sound : IsSound x t.store t.log_dir
  pub no_hints :
      (i : ℕ) → t.store.active_fileid < i → exists_in t.store.files (hintfile_name i) ≡ false
  pub room : (i : ℕ) → t.store.conf.max_file_size + length (data_of t.store.files i) < u64_size
  pub ids : t.store.active_fileid + length (cp.entries_of t.store.keydir) + 3 < u64_size
  pub present : AllPresent t.store.files t.store.stats

-- What a merge keeps.
pub record Keeps (x : Crates) (t t' : Merging x) : Type 0 where
  pub valid : IsValid x t'.store
  pub sound : IsSound x t'.store t'.log_dir
  pub no_hints :
      (i : ℕ) → t'.store.active_fileid < i → exists_in t'.store.files (hintfile_name i) ≡ false
  pub present : AllPresent t'.store.files t'.store.stats
  pub contents : (k : Bytes) → view x t'.store k ≡ view x t.store k
  pub same_closed : t'.store.closed ≡ t.store.closed
  pub same_readers : t'.store.readers ≡ t.store.readers
  pub same_conf : t'.store.conf ≡ t.store.conf

module _ (fl : Floats) (cf : Compares fl) where
  -- With all files there, the set of files is found, and each of them is there.
  fileids_to_merge-present :
      (t : MergeThresholds fl) (fs : Files) (stats : Stats)
      → AllPresent fs stats
      → (ids : List ℕ) × (fileids_to_merge fl cf t fs stats ≡ some ids)
        × ((i : ℕ) → contains i ids ≡ true → exists_in fs (datafile_name i) ≡ true)
  unfolding fileids_to_merge contains
  fileids_to_merge-present t fs [] h = ([], refl, λ i c. absurd (ground (arith, c)))
  fileids_to_merge-present t fs ((i, s) ∷ stats) h =
      let (ids, eq, p) = fileids_to_merge-present t fs stats h.1 in
      elim (Bool-cases (selected fl cf t s (length (data_of fs i)))) [
        | inl yes_in ↦ (
          into_set i ids,
          rw h.0 (rw eq (rw yes_in refl)),
          λ j c. ground (arith, c, contains-into_set j i ids, p j, h.0),
        )
        | inr not_in ↦ (ids, rw h.0 (rw eq (rw not_in refl)), p)
      ]

  module _ (x : Crates) (laws : IsLawful x) (cp : Copies x) (it : IsIteration x cp) (t : Merging x)
      (r : IsMergeable x cp t) where
    begin-IsBetween : IsBetween x t.store (begin t) t.store.active_fileid
    begin-IsBetween = record {
      later = omega arith;
      old_data = λ i h. refl;
      old_names = λ i h. refl;
      fresh = r.valid.fresh;
      fresh_hint = r.no_hints;
      small = r.valid.small;
      sound = r.sound;
      present = r.present;
      all_moved = tt;
    }

    merge_ids-Keeps :
        (ids : List ℕ)
        → ((i : ℕ) → contains i ids ≡ true → i ≤ t.store.active_fileid)
        → (t' : Merging x) × (merge_ids cp ids t ≡ finished t')
          × Keeps x t t'
          × ((i : ℕ) → contains i ids ≡ true → exists_in t'.store.files (datafile_name i) ≡ false)
    unfolding merge_ids settled
    merge_ids-Keeps ids old =
        let s = t.store in
        let n = r.ids in
        let first : add_u64 s.active_fileid 1 ≡ suc s.active_fileid = omega (arith, n) in
        let (c1, e1, b1, id, pos, _) =
          new_files-IsCopying x s (begin t) s.active_fileid begin-IsBetween in
        let list = cp.entries_of s.keydir in
        let (c, e2, g) =
          copy_entries-IsCopied x laws cp s r.valid s.conf.max_file_size r.room ids list c1 b1
            (omega (arith, pos)) (omega (arith, id, n)) (it.entries_of-get s.keydir) in
        let last = g.last in
        let next : c.merge_fileid + 1 < u64_size = omega (arith, last, id, n) in
        let covers : (k : Bytes) (e : KeyDirEntry)
            → x.get s.keydir k ≡ some e
            → contains e.fileid ids ≡ true
            → (e' : KeyDirEntry) × Among k e' c.moved =
          λ k e h. g.covers k e (it.get-entries_of s.keydir k e h) in
        let whole = merged x laws s r.valid ids old c g.copies next covers in
        let sound = g.copies.between.sound in
        (
          record { store = whole; log_dir = c.cache },
          ap
                (λ i. settle ids s (
                  then_round (new_files i (begin t))
                    (copy_entries cp s.conf.max_file_size ids list)))
                first
              ∙ (ap
                    (λ z.
                      settle ids s (then_round z (copy_entries cp s.conf.max_file_size ids list)))
                    e1
                  ∙ ap (settle ids s) e2
                  ∙ ap (as_outcome c.cache)
                      (new_active_datafile-merged x laws s r.valid ids old c g.copies next covers)),
          record {
            valid = merged-IsValid x laws s r.valid ids old c g.copies next covers;
            sound = merged-IsSound x laws s r.valid ids old c g.copies next covers c.cache sound;
            no_hints = merged_hints x laws s r.valid ids old c g.copies next covers;
            present = merged-AllPresent x laws s r.valid ids old c g.copies next covers;
            contents = merged-view x laws s r.valid ids old c g.copies next covers;
            same_closed = refl;
            same_readers = refl;
            same_conf = refl;
          },
          merged_gone x laws s r.valid ids old c g.copies next covers,
        )

    module _ (strategy : MergeStrategy fl) where
      -- A merge of a store that is ready for it succeeds: it finds the set of files to merge, under every
      -- key the store holds what it held before, although all those files are gone, and it satisfies the
      -- invariant of files, key directory and mappings again, the cache of the writer included.
      pub merge-Keeps :
          (ids : List ℕ) × (t' : Merging x) × (fileids_to_merge fl cf strategy.thresholds
              t.store.files t.store.stats
            ≡ some ids)
          × (merge cp fl cf strategy t ≡ finished t')
          × Keeps x t t'
          × ((i : ℕ) → contains i ids ≡ true → exists_in t'.store.files (datafile_name i) ≡ false)
      unfolding merge
      merge-Keeps =
          let (ids, eq, p) =
            fileids_to_merge-present strategy.thresholds t.store.files t.store.stats r.present in
          let (t', eq', k, gone) = merge_ids-Keeps ids (λ i c.
            elim (dec_le i t.store.active_fileid) [
              | yes l ↦ l
              | no l ↦
                  absurd (let z = r.valid.fresh i (omega (arith, l)) in ground (arith, z, p i c))
            ]) in
          (ids, t', eq, rw (eq, merge) eq', k, gone)
