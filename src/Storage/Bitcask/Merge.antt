-- ===== src/Storage/Bitcask/Merge.antt =====
-- Merging: `Writer::merge`, `can_merge`, `fileids_to_merge` and `sync` of writer.rs, `LogDir::copy` and
-- `LogStatistics::fragmentation` of log.rs, `Handle::merge` and `Handle::sync` of bitcask.rs. The bytes
-- that are copied reach their file at once; nobody reads it before its writer is dropped.
pub mod Writer
pub mod Copy
pub mod Present
pub mod Invariant
pub mod Written
pub mod Loop
pub mod Removed
pub mod Settle
pub mod Keeps
pub mod Triggers
pub mod Toy
pub mod Tests
use opal.Prelude.{
  ℕ, ◌+◌, ◌-◌, Bool, true, false, ◌||◌, Option, none, some, List, [], ◌∷◌, length, take, drop, ltb,
  ◌==◌, if◌then◌else◌,
}
use opal.Env.{Bytes}
use opal.Storage.Bitcask.Data.{
  HintFileEntry, KeyDirEntry, Error, io, not_found, already_exists, closed, add_u64,
}
use opal.Storage.Bitcask.Config.{
  Floats, MergePolicy, always, never, window, MergeStrategy, MergeThresholds, MergeTriggers,
}
use opal.Storage.Bitcask.Crates.{Crates, LogReader}
use opal.Storage.Bitcask.Files.{
  Files, FileName, datafile_name, hintfile_name, bytes_of, exists_in, create, append, unlink,
  data_of,
}
use opal.Storage.Bitcask.Stats.{Stats, LogStatistics, at_entry, add_live}
use opal.Storage.Bitcask.Log.{LogWriter, new_writer, remap, in_mapping}
use opal.Storage.Bitcask.Recovery.{into_set}
use opal.Storage.Bitcask.Store.{Store, Result, ok, err, panic, spinning, new_active_datafile}

-- What merging takes from other crates besides `Crates`: the iteration of the key directory and bincode
-- on the entries of hint files.
pub record Copies (x : Crates) : Type 0 where
  pub entries_of : x.KeyDir → List (Bytes × KeyDirEntry)
  pub serialize_hint : HintFileEntry → Bytes

-- `a as f64 / b as f64`, and `>` on `f64`.
pub record Compares (fl : Floats) : Type 0 where
  pub quotient : ℕ → ℕ → fl.Float
  pub gt : fl.Float → fl.Float → Bool

module _ (fl : Floats) (cf : Compares fl) where
  unfoldable pub fragmentation : LogStatistics → fl.Float
  fragmentation s =
      if s.dead_keys == 0
      then fl.tenths 0
      else cf.quotient s.dead_keys (add_u64 s.dead_keys s.live_keys)

  abbrev pub outside : ℕ → MergePolicy → Bool
  outside hour (window start end) = ltb hour start || ltb end hour
  outside hour always = false
  outside hour never = true

  unfoldable pub any_triggered : MergeTriggers fl → Stats → Bool
  unfolding fragmentation
  any_triggered t [] = false
  any_triggered t ((_, s) ∷ stats) =
      (ltb t.dead_bytes s.dead_bytes || cf.gt (fragmentation s) t.fragmentation)
      || any_triggered t stats

  -- `can_merge`, at this hour of the day.
  unfoldable pub can_merge : ℕ → MergeStrategy fl → Stats → Bool
  unfolding any_triggered
  can_merge hour m stats = if outside hour m.policy then false else any_triggered m.triggers stats

  abbrev pub selected : MergeThresholds fl → LogStatistics → ℕ → Bool
  selected t s size =
      (ltb t.dead_bytes s.dead_bytes || cf.gt (fragmentation s) t.fragmentation)
      || ltb size t.small_file

  abbrev pub insert_if : Bool → ℕ → Option (List ℕ) → Option (List ℕ)
  insert_if b i none = none
  insert_if b i (some is) = some (if b then into_set i is else is)

  -- `fileids_to_merge`; none when the metadata of a file cannot be read.
  unfoldable pub fileids_to_merge : MergeThresholds fl → Files → Stats → Option (List ℕ)
  unfolding fragmentation
  fileids_to_merge t fs [] = some []
  fileids_to_merge t fs ((i, s) ∷ stats) =
      let rest = fileids_to_merge t fs stats in
      if exists_in fs (datafile_name i)
      then insert_if (selected t s (length (data_of fs i))) i rest
      else none

unfoldable pub contains : ℕ → List ℕ → Bool
contains i [] = false
contains i (j ∷ js) = (i == j) || contains i js

-- `LogReader::copy_raw` and `LogDir::copy`: the bytes, a file that cannot be opened, or the panic of a
-- slice out of range.
pub data Copied : Type 0 where
  copied : Bytes → Copied
  not_opened out_of_range : Copied

-- The variables of the loop of `merge`, together with what it changes. `moved` is `new_keydir_entries`.
pub record Copying (x : Crates) : Type 0 where
  pub files : Files
  pub cache : x.Cache
  pub stats : Stats
  pub merge_fileid : ℕ
  pub merge_pos : ℕ
  pub hint : LogWriter
  pub moved : List (Bytes × KeyDirEntry)

pub data Round (x : Crates) : Type 0 where
  copying : Copying x → Round x
  halted : Error → Copying x → Round x
  torn_slice : Round x

-- A store with the cache of its writer.
pub record Merging (x : Crates) : Type 0 where
  pub store : Store x
  pub log_dir : x.Cache

pub data Outcome (x : Crates) : Type 0 where
  finished : Merging x → Outcome x
  stopped : Error → Merging x → Outcome x
  panicked : Outcome x

module _ (x : Crates) where
  unfoldable pub copy_raw : Files → ℕ → LogReader → ℕ → ℕ → Copied × LogReader
  unfolding remap
  copy_raw fs fileid reader len pos =
      let reader = remap x fs fileid reader pos in
      let end = add_u64 pos len in
      (
        (if in_mapping pos end reader.mapped
            then copied (take (end - pos) (drop pos (bytes_of (fs (datafile_name fileid)))))
            else out_of_range),
        reader,
      )

  unfoldable pub copy_opened : Files → x.Cache → ℕ → ℕ → ℕ → Copied × x.Cache
  unfolding copy_raw
  copy_opened fs cache fileid len pos =
      if exists_in fs (datafile_name fileid)
      then (let (result, reader) =
            copy_raw fs fileid (record { mapped = length (bytes_of (fs (datafile_name fileid))) })
              len pos in
          (result, x.put cache fileid reader))
      else (not_opened, cache)

  unfoldable pub copy_cached : Files → x.Cache → ℕ → ℕ → ℕ → LogReader → Copied × x.Cache
  unfolding copy_raw
  copy_cached fs cache fileid len pos reader =
      let (result, reader) = copy_raw fs fileid reader len pos in
      (result, x.update (x.touch cache fileid) fileid reader)

  unfoldable pub copy : Files → x.Cache → ℕ → ℕ → ℕ → Copied × x.Cache
  unfolding copy_cached copy_opened
  copy fs cache fileid len pos = elim (x.peek cache fileid) [
    | some reader ↦ copy_cached fs cache fileid len pos reader
    | none ↦ copy_opened fs cache fileid len pos
  ]
