-- ===== src/Storage/Bitcask/Recovery/Rebuild.antt =====
-- `rebuild_storage` on a directory without hint files: it replays the data files in the order of their
-- ids, each up to a torn entry at its end.
use opal.Prelude.{
  ℕ, suc, ◌<◌, ◌≡◌, refl, ap, ◌∙◌, true, false, none, List, [], ◌∷◌, ◌++◌, length, length-append,
  arith,
}
use opal.Env.{Bytes}
use opal.Storage.Bitcask.Data.{DataFileEntry, u64_size, io, not_found}
use opal.Storage.Bitcask.Crates.{Crates, IsLawful}
use opal.Storage.Bitcask.Files.{Files, FileName, datafile_name, hintfile_name, data_of, exists_in}
use opal.Storage.Bitcask.Recovery.{
  Streams, eof, Rebuilt, loaded, failed, data_loop, populate_keydir_with_datafile,
  populate_keydir_with_hintfile, load_files, nothing, rebuild_storage, most_recent, next_fileid,
}
use opal.Storage.Bitcask.Recovery.Replay.{
  IsStream, Index, blank, History, serialize_all, replay, replay_all, Matches, data_loop-replay,
  length-serialize_all,
}
use opal.Storage.Bitcask.Recovery.Fileids.{member, listed, IsAscending, sorted_fileids-eq}

abbrev pub ids : List (ℕ × List DataFileEntry) → List ℕ
ids [] = []
ids ((i, _) ∷ h) = i ∷ ids h

module _ (x : Crates) (st : Streams x) where
  -- A data file with these entries and perhaps a torn one behind, and without a hint file.
  pub record IsFile (fs : Files) (i : ℕ) (ds : List DataFileEntry) : Type 0 where
    pub present : exists_in fs (datafile_name i) ≡ true
    pub no_hint : exists_in fs (hintfile_name i) ≡ false
    pub written :
        (tail : Bytes) × (data_of fs i ≡ serialize_all x ds ++ tail) × (st.data_from tail ≡ eof)
    pub small : length (data_of fs i) < u64_size

  abbrev pub AllFiles : Files → History x → Type 0
  AllFiles fs [] = Unit
  AllFiles fs ((i, ds) ∷ h) = IsFile fs i ds × AllFiles fs h

  -- The names list the data files of a history, and these hold its entries.
  pub record IsDirectory (fs : Files) (names : List FileName) (h : History x) : Type 0 where
    pub ascending : IsAscending (ids h)
    pub files : AllFiles fs h
    pub complete : (i : ℕ) → listed i names ≡ member i (ids h)

module _ (x : Crates) (laws : IsLawful x) (st : Streams x) (io_laws : IsStream x st)
    (fs : Files) where
  no_hint :
      (i : ℕ) (r : Rebuilt x)
      → exists_in fs (hintfile_name i) ≡ false
      → populate_keydir_with_hintfile st fs i r ≡ failed (io not_found)
  unfolding populate_keydir_with_hintfile
  no_hint i r h = rw h refl

  populate-replay :
      (i : ℕ) (ds : List DataFileEntry) (r : Rebuilt x) (m : Index)
      → IsFile x st fs i ds
      → Matches x r m
      → (r' : Rebuilt x) × (populate_keydir_with_datafile st fs i r ≡ loaded r')
        × Matches x r' (replay x i 0 ds m)
  unfolding populate_keydir_with_datafile
  populate-replay i ds r m f h =
      let (tail, e, stop) = f.written in
      let l = ap length e ∙ length-append (serialize_all x ds) tail in
      let (r', eq, g) =
        data_loop-replay x laws st io_laws ds tail (suc (length (data_of fs i))) 0 i r m stop
          (omega (arith, l, length-serialize_all x laws st io_laws ds)) (omega (arith, l, f.small))
          h in
      (r', rw f.present (ap (λ bs. data_loop st (suc (length (data_of fs i))) bs 0 i r) e ∙ eq), g)

  load_files-replay :
      (h : History x) (r : Rebuilt x) (m : Index)
      → AllFiles x st fs h
      → Matches x r m
      → (r' : Rebuilt x) × (load_files st fs (ids h) r ≡ loaded r')
        × Matches x r' (replay_all x h m)
  unfolding load_files replay_all
  load_files-replay [] r m a g = (r, refl, g)
  load_files-replay ((i, ds) ∷ h) r m a g =
      let (u, e, k) = populate-replay i ds r m a.0 g in
      let (t, e', k') = load_files-replay h u (replay x i 0 ds m) a.1 k in
      (t, rw (no_hint i r a.0.no_hint, load_files) (rw e e'), k')

  -- On a directory that has no hint files and whose data files hold the entries of a history, each
  -- perhaps with a torn entry at the end, `rebuild_storage` returns exactly the key directory and the
  -- statistics that replaying the history gives, and the id above the greatest one. The names may come
  -- in any order.
  pub rebuild_storage-replay :
      (names : List FileName) (h : History x)
      → IsDirectory x st fs names h
      → (r : Rebuilt x) × (rebuild_storage st fs names
          ≡ (loaded r, next_fileid (most_recent none (ids h))))
        × Matches x r (replay_all x h blank)
  unfolding rebuild_storage
  rebuild_storage-replay names h d =
      let e = sorted_fileids-eq names (ids h) d.ascending d.complete in
      let start : Matches x (nothing st) blank = record {
        entries = io_laws.get-empty_keydir;
        stats = refl;
      } in
      let (r, eq, g) = load_files-replay h (nothing st) blank d.files start in
      (r, rw e (rw eq refl), g)
