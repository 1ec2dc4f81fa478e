-- ===== src/Storage/Bitcask/Recovery.antt =====
-- Opening a storage: `rebuild_storage`, the functions below it and `Bitcask::open` of
-- storage/bitcask.rs, `LogIterator` of log.rs, `sorted_fileids` of utils.rs, and `Writer::drop`.
pub mod Replay
pub mod Fileids
pub mod Rebuild
pub mod Hints
pub mod Logged
pub mod Kept
pub mod Calls
pub mod Reopen
pub mod Left
pub mod Survive
pub mod First
pub mod Total
pub mod Toy
mod HintTests
mod FirstTests
mod Tests
use opal.Prelude.{
  ℕ, zero, suc, ◌+◌, false, Option, none, some, List, [], ◌∷◌, length, drop, ltb, ◌==◌,
  if◌then◌else◌,
}
use opal.Env.{Bytes}
use opal.Storage.Bitcask.Data.{
  DataFileEntry, HintFileEntry, KeyDirEntry, LogIndex, Config, Error, serialization, io, not_found,
  already_exists, add_u64, sub_u64,
}
use opal.Storage.Bitcask.Crates.{Crates}
use opal.Storage.Bitcask.Files.{
  Files, FileName, File, datafile_name, hintfile_name, bytes_of, exists_in, create, unlink,
}
use opal.Storage.Bitcask.Stats.{Stats, LogStatistics, at_entry, add_live, add_dead, overwrite}
use opal.Storage.Bitcask.Log.{new_writer}
use opal.Storage.Bitcask.Store.{Store, counted, overwritten}

-- `bincode::deserialize_from`: the entry and how many bytes it took, the end of the file in the middle
-- of an entry or before it, or another error.
pub data Decoded (A : Type 0) : Type 0 where
  entry : A → ℕ → Decoded A
  eof bad : Decoded A

-- What opening takes from other crates besides `Crates`.
pub record Streams (x : Crates) : Type 0 where
  pub data_from : Bytes → Decoded DataFileEntry
  pub hint_from : Bytes → Decoded HintFileEntry
  pub empty_keydir : x.KeyDir
  pub empty_cache : x.Cache

-- `LogIterator::next`: the item and where the reader stands behind it, the end, or an error.
pub data Next (A : Type 0) : Type 0 where
  item : LogIndex → A → Bytes → ℕ → Next A
  done broken : Next A

abbrev pub next_of : {A : Type 0} → Decoded A → Bytes → ℕ → Next A
next_of (entry a n) rest pos =
    let pos' = add_u64 pos n in
    item (record { len = sub_u64 pos' pos; pos = pos }) a (drop n rest) pos'
next_of eof rest pos = done
next_of bad rest pos = broken

-- `sorted_fileids`: the ids of the data files, each once and in order. A name is what it parses as.
unfoldable pub into_set : ℕ → List ℕ → List ℕ
into_set i [] = i ∷ []
into_set i (j ∷ js) =
    let rest = into_set i js in if ltb i j then i ∷ j ∷ js else if i == j then j ∷ js else j ∷ rest

unfoldable pub sorted_fileids : List FileName → List ℕ
sorted_fileids [] = []
sorted_fileids (datafile_name i ∷ names) = into_set i (sorted_fileids names)
sorted_fileids (hintfile_name i ∷ names) = sorted_fileids names

-- The most recent id that the loop of `rebuild_storage` keeps.
unfoldable pub most_recent : Option ℕ → List ℕ → Option ℕ
most_recent o [] = o
most_recent none (i ∷ is) = most_recent (some i) is
most_recent (some j) (i ∷ is) = most_recent (some (if ltb j i then i else j)) is

abbrev pub next_fileid : Option ℕ → ℕ
next_fileid none = 0
next_fileid (some i) = add_u64 i 1

-- The maps that recovery fills.
pub record Rebuilt (x : Crates) : Type 0 where
  pub keydir : x.KeyDir
  pub stats : Stats

pub data Loaded (x : Crates) : Type 0 where
  loaded : Rebuilt x → Loaded x
  failed : Error → Loaded x
  out_of_fuel : Loaded x

pub data Opened (x : Crates) : Type 0 where
  opened : Store x → Opened x
  open_failed : Error → Opened x
  stuck : Opened x

module _ {x : Crates} where
  abbrev pub insert_entry : Bytes → KeyDirEntry → Rebuilt x → Rebuilt x
  insert_entry key e r = record {
    keydir = x.insert r.keydir key e;
    stats = overwritten (x.get r.keydir key) (at_entry e.fileid add_live r.stats);
  }

  -- The body of the loop in `populate_keydir_with_datafile`.
  abbrev pub on_entry : ℕ → LogIndex → DataFileEntry → Rebuilt x → Rebuilt x
  on_entry fileid index d r = elim d.value [
    | none ↦ record {
      keydir = x.remove r.keydir d.key;
      stats = overwritten (x.get r.keydir d.key) (at_entry fileid (add_dead index.len) r.stats);
    }
    | some _ ↦
        insert_entry d.key
          (record { fileid = fileid; len = index.len; pos = index.pos; tstamp = d.tstamp }) r
  ]

  -- That of `populate_keydir_with_hintfile`.
  abbrev pub on_hint : ℕ → HintFileEntry → Rebuilt x → Rebuilt x
  on_hint fileid h r =
      insert_entry h.key (record { fileid = fileid; len = h.len; pos = h.pos; tstamp = h.tstamp }) r

  module _ (st : Streams x) where
    -- The loops, each round of which reads at least a byte.
    unfoldable pub data_loop : ℕ → Bytes → ℕ → ℕ → Rebuilt x → Loaded x
    data_loop zero rest pos fileid r = out_of_fuel
    data_loop (suc fuel) rest pos fileid r = elim (next_of (st.data_from rest) rest pos) [
      | item index d rest' pos' ↦ data_loop fuel rest' pos' fileid (on_entry fileid index d r)
      | done ↦ loaded r
      | broken ↦ failed serialization
    ]

    unfoldable pub hint_loop : ℕ → Bytes → ℕ → ℕ → Rebuilt x → Loaded x
    hint_loop zero rest pos fileid r = out_of_fuel
    hint_loop (suc fuel) rest pos fileid r = elim (next_of (st.hint_from rest) rest pos) [
      | item index h rest' pos' ↦ hint_loop fuel rest' pos' fileid (on_hint fileid h r)
      | done ↦ loaded r
      | broken ↦ failed serialization
    ]

    unfoldable pub populate_keydir_with_datafile : Files → ℕ → Rebuilt x → Loaded x
    unfolding data_loop
    populate_keydir_with_datafile fs fileid r =
        if exists_in fs (datafile_name fileid)
        then (let bytes = bytes_of (fs (datafile_name fileid)) in
            data_loop (suc (length bytes)) bytes 0 fileid r)
        else failed (io not_found)

    unfoldable pub populate_keydir_with_hintfile : Files → ℕ → Rebuilt x → Loaded x
    unfolding hint_loop
    populate_keydir_with_hintfile fs fileid r =
        if exists_in fs (hintfile_name fileid)
        then (let bytes = bytes_of (fs (hintfile_name fileid)) in
            hint_loop (suc (length bytes)) bytes 0 fileid r)
        else failed (io not_found)

    -- A file that is not found is the hint file: its data file is read instead.
    abbrev pub or_datafile : Files → ℕ → Rebuilt x → Loaded x → Loaded x
    or_datafile fs fileid r (failed (io not_found)) = populate_keydir_with_datafile fs fileid r
    or_datafile fs fileid r l = l

    abbrev pub then_load : Loaded x → (Rebuilt x → Loaded x) → Loaded x
    then_load (loaded r) f = f r
    then_load (failed e) f = failed e
    then_load out_of_fuel f = out_of_fuel

    unfoldable pub load_files : Files → List ℕ → Rebuilt x → Loaded x
    unfolding populate_keydir_with_datafile populate_keydir_with_hintfile
    load_files fs [] r = loaded r
    load_files fs (i ∷ is) r =
        then_load (or_datafile fs i r (populate_keydir_with_hintfile fs i r)) (load_files fs is)

    abbrev pub nothing : Rebuilt x
    nothing = record { keydir = st.empty_keydir; stats = [] }

    -- `rebuild_storage`, with the names that reading the directory gives.
    unfoldable pub rebuild_storage : Files → List FileName → Loaded x × ℕ
    unfolding load_files sorted_fileids most_recent
    rebuild_storage fs names =
        let fileids = sorted_fileids names in
        (load_files fs fileids nothing, next_fileid (most_recent none fileids))

    abbrev pub caches : ℕ → List x.Cache
    caches zero = []
    caches (suc n) = st.empty_cache ∷ caches n

    -- The new active file of `Bitcask::open`, with a queue of `concurrency` readers.
    unfoldable pub start : Config → ℕ → Files → Rebuilt x → ℕ → Opened x
    unfolding new_writer
    start conf concurrency fs r fileid = elim (create fs (datafile_name fileid)) [
      | none ↦ open_failed (io already_exists)
      | some files ↦ opened (record {
        files = files;
        keydir = r.keydir;
        closed = false;
        conf = conf;
        writer = new_writer files (datafile_name fileid);
        stats = r.stats;
        active_fileid = fileid;
        written_bytes = 0;
        readers = caches concurrency;
      })
    ]

    abbrev pub started : Config → ℕ → Files → Loaded x × ℕ → Opened x
    started conf concurrency fs (loaded r, fileid) = start conf concurrency fs r fileid
    started conf concurrency fs (failed e, fileid) = open_failed e
    started conf concurrency fs (out_of_fuel, fileid) = stuck

    -- `Bitcask::open`, without the thread that it starts.
    unfoldable pub open_storage : Config → ℕ → Files → List FileName → Opened x
    unfolding rebuild_storage start
    open_storage conf concurrency fs names = started conf concurrency fs (rebuild_storage fs names)

  -- `Writer::drop` removes an active file that nothing was written to.
  unfoldable pub drop_writer : Store x → Files
  drop_writer s =
      let name = datafile_name s.active_fileid in
      if s.written_bytes == 0 then unlink s.files name else s.files
