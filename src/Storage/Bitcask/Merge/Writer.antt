-- ===== src/Storage/Bitcask/Merge/Writer.antt =====
-- `Writer::merge`, and the methods of `Handle` that merge and sync.
use opal.Prelude.{ℕ, none, some, List, [], ◌∷◌, length, ltb, ◌==◌, if◌then◌else◌}
use opal.Env.{Bytes}
use opal.Storage.Bitcask.Data.{
  HintFileEntry, KeyDirEntry, io, not_found, already_exists, closed, add_u64,
}
use opal.Storage.Bitcask.Config.{Floats, MergeStrategy}
use opal.Storage.Bitcask.Crates.{Crates}
use opal.Storage.Bitcask.Files.{Files, datafile_name, hintfile_name, create, append, unlink}
use opal.Storage.Bitcask.Stats.{Stats, at_entry, add_live}
use opal.Storage.Bitcask.Log.{new_writer}
use opal.Storage.Bitcask.Store.{Store, Result, ok, err, panic, spinning, new_active_datafile}
use opal.Storage.Bitcask.Merge.{
  Copies, Compares, can_merge, fileids_to_merge, contains, Copied, copied, not_opened, out_of_range,
  copy, Copying, Round, copying, halted, torn_slice, Merging, Outcome, finished, stopped, panicked,
}

unfoldable pub remove_stats : ℕ → Stats → Stats
remove_stats i [] = []
remove_stats i ((j, s) ∷ rest) =
    let left = remove_stats i rest in if j == i then left else (j, s) ∷ left

-- The files that were merged go; one that is not there is no error.
unfoldable pub remove_files : List ℕ → Files → Files
remove_files [] fs = fs
remove_files (i ∷ is) fs = remove_files is (unlink (unlink fs (hintfile_name i)) (datafile_name i))

unfoldable pub remove_all_stats : List ℕ → Stats → Stats
unfolding remove_stats
remove_all_stats [] stats = stats
remove_all_stats (i ∷ is) stats = remove_all_stats is (remove_stats i stats)

-- `keydir_set` for each of the new entries.
module _ (x : Crates) where
  unfoldable pub set_entries : List (Bytes × KeyDirEntry) → x.KeyDir → x.KeyDir
  set_entries [] m = m
  set_entries ((key, e) ∷ rest) m = x.insert (set_entries rest m) key e

module _ {x : Crates} where
  -- The next pair of a data file and a hint file.
  unfoldable pub new_files : ℕ → Copying x → Round x
  unfolding new_writer
  new_files id c = elim (create c.files (datafile_name id)) [
    | none ↦ halted (io already_exists) c
    | some files ↦ elim (create files (hintfile_name id)) [
      | none ↦ halted (io already_exists) (record c { files = files })
      | some files' ↦ copying (record c {
        files = files';
        merge_fileid = id;
        merge_pos = 0;
        hint = new_writer files' (hintfile_name id);
      })
    ]
  ]

  unfoldable pub full_round : ℕ → Copying x → Round x
  unfolding new_files
  full_round max c =
      if ltb max c.merge_pos then new_files (add_u64 c.merge_fileid 1) c else copying c

  abbrev pub then_round : Round x → (Copying x → Round x) → Round x
  then_round (copying c) f = f c
  then_round (halted e c) f = halted e c
  then_round torn_slice f = torn_slice

  abbrev pub as_merging : Store x → Copying x → Merging x
  as_merging s c = record {
    store = record s { files = c.files; stats = c.stats };
    log_dir = c.cache;
  }

  abbrev pub as_outcome : x.Cache → Result x (Unit {0}) → Outcome x
  as_outcome cache (ok _ s) = finished (record { store = s; log_dir = cache })
  as_outcome cache (err e s) = stopped e (record { store = s; log_dir = cache })
  as_outcome cache panic = panicked
  as_outcome cache spinning = panicked

  -- The store behind the loop, without the files that were merged.
  unfoldable pub settled : List ℕ → Store x → Copying x → Store x
  unfolding set_entries remove_files remove_all_stats
  settled ids s c = record s {
    files = remove_files ids c.files;
    stats = remove_all_stats ids c.stats;
    keydir = set_entries x c.moved s.keydir;
  }

  abbrev pub settle : List ℕ → Store x → Round x → Outcome x
  settle ids s (copying c) =
      as_outcome c.cache (new_active_datafile (add_u64 c.merge_fileid 1) (settled ids s c))
  settle ids s (halted e c) = stopped e (as_merging s c)
  settle ids s torn_slice = panicked

  -- The variables before the first pair of files, which sets the writer of hints.
  abbrev pub begin : Merging x → Copying x
  begin t = record {
    files = t.store.files;
    cache = t.log_dir;
    stats = t.store.stats;
    merge_fileid = add_u64 t.store.active_fileid 1;
    merge_pos = 0;
    hint = t.store.writer;
    moved = [];
  }

  -- `Handle::sync`; the bytes are in the file already.
  unfoldable pub handle_sync : Merging x → Outcome x
  handle_sync t = if t.store.closed then stopped closed t else finished t

module _ {x : Crates} (cp : Copies x) where
  -- The hint says where the record was, not where its copy is.
  abbrev pub hint_of : Bytes → KeyDirEntry → HintFileEntry
  hint_of key e = record { tstamp = e.tstamp; len = e.len; pos = e.pos; key = key }

  -- What a round does with the bytes of an entry, up to the switch of files.
  unfoldable pub moved_to : Bytes → KeyDirEntry → Bytes → Copying x → Copying x
  moved_to key e bs c =
      let hint = cp.serialize_hint (hint_of key e) in
      record c {
        files = append (append c.files (datafile_name c.merge_fileid) bs) c.hint.file hint;
        stats = at_entry c.merge_fileid add_live c.stats;
        merge_pos = add_u64 c.merge_pos (length bs);
        hint = record { file = c.hint.file; pos = add_u64 c.hint.pos (length hint) };
        moved =
            (
              key,
              record {
                fileid = c.merge_fileid;
                len = length bs;
                pos = c.merge_pos;
                tstamp = e.tstamp;
              },
            )
            ∷ c.moved;
      }

  abbrev pub with_copied : ℕ → Bytes → KeyDirEntry → Copied × x.Cache → Copying x → Round x
  with_copied max key e (copied bs, cache) c =
      full_round max (moved_to key e bs (record c { cache = cache }))
  with_copied max key e (not_opened, cache) c = halted (io not_found) (record c { cache = cache })
  with_copied max key e (out_of_range, cache) c = torn_slice

  abbrev pub copy_entry : ℕ → Bytes → KeyDirEntry → Copying x → Round x
  copy_entry max key e c = with_copied max key e (copy x c.files c.cache e.fileid e.len e.pos) c

  -- The loop over the entries of the key directory.
  unfoldable pub copy_entries : ℕ → List ℕ → List (Bytes × KeyDirEntry) → Copying x → Round x
  copy_entries max ids [] c = copying c
  copy_entries max ids ((key, e) ∷ rest) c =
      then_round (if contains e.fileid ids then copy_entry max key e c else copying c)
        (copy_entries max ids rest)

  unfoldable pub merge_ids : List ℕ → Merging x → Outcome x
  unfolding new_files copy_entries settled new_active_datafile
  merge_ids ids t = settle ids t.store (
      then_round (new_files (add_u64 t.store.active_fileid 1) (begin t))
        (copy_entries t.store.conf.max_file_size ids (cp.entries_of t.store.keydir)))

  module _ (fl : Floats) (cf : Compares fl) (strategy : MergeStrategy fl) where
    -- `Writer::merge`
    unfoldable pub merge : Merging x → Outcome x
    unfolding merge_ids fileids_to_merge
    merge t = elim (fileids_to_merge fl cf strategy.thresholds t.store.files t.store.stats) [
      | none ↦ stopped (io not_found) t
      | some ids ↦ merge_ids ids t
    ]

    -- `Handle::merge`, at this hour of the day.
    unfoldable pub handle_merge : ℕ → Merging x → Outcome x
    unfolding merge can_merge
    handle_merge hour t =
        if t.store.closed
        then stopped closed t
        else if can_merge fl cf hour strategy t.store.stats
        then merge t
        else finished t
