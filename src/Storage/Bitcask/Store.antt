-- ===== src/Storage/Bitcask/Store.antt =====
-- The engine's state and its operations: storage/bitcask/context.rs, reader.rs, writer.rs, and the
-- methods of `Handle` in storage/bitcask.rs. Each runs to its end: the writer stands behind a mutex.
pub mod Located
pub mod Growth
pub mod Append
pub mod Switch
pub mod Entry
pub mod Put
pub mod Mapping
pub mod Get
pub mod Session
pub mod Toy
pub mod Fresh
mod Tests
use opal.Prelude.{
  ℕ, ◌+◌, Bool, true, false, Option, none, some, List, [], ◌∷◌, ◌++◌, ltb, if◌then◌else◌,
}
use opal.Prelude.Int.{ℤ}
use opal.Env.{Bytes}
use opal.Storage.Bitcask.Data.{
  DataFileEntry, KeyDirEntry, LogIndex, Config, Error, closed, io, already_exists, add_u64,
  SyncStrategy,
}
use opal.Storage.Bitcask.Crates.{Crates}
use opal.Storage.Bitcask.Files.{Files, datafile_name, create}
use opal.Storage.Bitcask.Stats.{Stats, LogStatistics, at_entry, add_live, add_dead, overwrite}
use opal.Storage.Bitcask.Log.{
  LogWriter, new_writer, append_entry, read, Fetched, fetched, failed, panicked,
}

-- The fields of `Context`, `Writer` and `Handle` together with the files of the directory.
pub record Store (x : Crates) : Type 0 where
  pub files : Files
  pub keydir : x.KeyDir
  pub closed : Bool
  pub conf : Config
  pub writer : LogWriter
  pub stats : Stats
  pub active_fileid : ℕ
  pub written_bytes : ℕ
  pub readers : List x.Cache

-- `spinning`: no reader ever comes back to an empty queue while nobody else runs.
pub data Result (x : Crates) (A : Type 0) : Type 0 where
  ok : A → Store x → Result x A
  err : Error → Store x → Result x A
  panic spinning : Result x A

abbrev pub counted : Option Bytes → ℕ → LogStatistics → LogStatistics
counted (some _) len stats = add_live stats
counted none len stats = add_dead len stats

-- `stats.entry(prev.fileid).or_default().overwrite(prev.len)`, if there is an entry.
abbrev pub overwritten : Option KeyDirEntry → Stats → Stats
overwritten none stats = stats
overwritten (some prev) stats = at_entry prev.fileid (overwrite prev.len) stats

abbrev pub is_some : Option KeyDirEntry → Bool
is_some none = false
is_some (some _) = true

module _ {x : Crates} where
  infixl 5 ◌>>=◌
  abbrev pub ◌>>=◌ : {A B : Type 0} → Result x A → (A → Store x → Result x B) → Result x B
  ok a s >>= f = f a s
  err e s >>= f = err e s
  panic >>= f = panic
  spinning >>= f = spinning

  -- `Writer::new_active_datafile`: the id changes before the file is created.
  unfoldable pub new_active_datafile : ℕ → Store x → Result x (Unit {0})
  unfolding new_writer
  new_active_datafile fileid s = elim (create s.files (datafile_name fileid)) [
    | none ↦ err (io already_exists) (record s { active_fileid = fileid })
    | some files ↦ ok tt (record s {
      files = files;
      active_fileid = fileid;
      writer = new_writer files (datafile_name fileid);
      written_bytes = 0;
    })
  ]

  -- The state behind the append and the statistics.
  unfoldable pub appended : ℤ → Bytes → Option Bytes → Store x → LogIndex × Store x
  unfolding append_entry
  appended tstamp key value s =
      let (index, writer, files) =
        append_entry x s.files s.writer (record { tstamp = tstamp; key = key; value = value }) in
      (
        index,
        record s {
          files = files;
          writer = writer;
          written_bytes = add_u64 s.written_bytes index.len;
          stats = at_entry s.active_fileid (counted value index.len) s.stats;
        },
      )

  -- The switch to a new file when the active one has grown over its limit.
  unfoldable pub rotate : Store x → Result x (Unit {0})
  unfolding new_active_datafile
  rotate s =
      if ltb s.conf.max_file_size s.written_bytes
      then new_active_datafile (add_u64 s.active_fileid 1) s
      else ok tt s

  -- `Writer::write`; a sync changes no byte.
  unfoldable pub write : ℤ → Bytes → Option Bytes → Store x → Result x KeyDirEntry
  unfolding appended rotate
  write tstamp key value s =
      let (index, s') = appended tstamp key value s in
      rotate s' >>= λ _ s''.
      ok (record { fileid = s.active_fileid; len = index.len; pos = index.pos; tstamp = tstamp })
        s''

  -- `Context::keydir_set` and what `Writer::put` does with the entry that it returns.
  unfoldable pub keydir_set : Bytes → KeyDirEntry → Store x → Store x
  keydir_set key entry s = record s {
    keydir = x.insert s.keydir key entry;
    stats = overwritten (x.get s.keydir key) s.stats;
  }

  unfoldable pub writer_put : ℤ → Bytes → Bytes → Store x → Result x (Unit {0})
  writer_put now key value s =
      write now key (some value) s >>= λ entry s'. ok tt (keydir_set key entry s')

  unfoldable pub writer_delete : ℤ → Bytes → Store x → Result x Bool
  writer_delete now key s = write now key none s >>= λ _ s'.
      ok (is_some (x.get s'.keydir key)) (record s' {
        keydir = x.remove s'.keydir key;
        stats = overwritten (x.get s'.keydir key) s'.stats;
      })

  abbrev pub value_of :
      Fetched × x.Cache → Store x → (x.Cache → List x.Cache) → Result x (Option Bytes)
  value_of (fetched e, cache) s back = ok e.value (record s { readers = back cache })
  value_of (failed f, cache) s back = err f (record s { readers = back cache })
  value_of (panicked, cache) s back = panic

  -- `Reader::get` with the reader that `Handle::get` took, which goes to the end of the queue. A
  -- panic loses the reader.
  unfoldable pub reader_get : Bytes → x.Cache → List x.Cache → Store x → Result x (Option Bytes)
  reader_get key cache others s = elim (x.get s.keydir key) [
    | none ↦ ok none (record s { readers = others ++ cache ∷ [] })
    | some e ↦ value_of (read x s.files cache e.fileid e.len e.pos) s (λ c. others ++ c ∷ [])
  ]

  unfoldable pub put : ℤ → Bytes → Bytes → Store x → Result x (Unit {0})
  unfolding writer_put
  put now key value s = if s.closed then err closed s else writer_put now key value s

  unfoldable pub delete : ℤ → Bytes → Store x → Result x Bool
  unfolding writer_delete
  delete now key s = if s.closed then err closed s else writer_delete now key s

  abbrev pub with_reader : Bytes → List x.Cache → Store x → Result x (Option Bytes)
  with_reader key [] s = spinning
  with_reader key (cache ∷ others) s = reader_get key cache others s

  unfoldable pub get : Bytes → Store x → Result x (Option Bytes)
  get key s = if s.closed then err closed s else with_reader key s.readers s

  unfoldable pub close : Store x → Store x
  close s = record s { closed = true }
