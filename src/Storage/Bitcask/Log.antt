-- ===== src/Storage/Bitcask/Log.antt =====
-- storage/bitcask/log.rs and bufio.rs: the writer that appends entries, a reader with its mapping, and
-- the cache of readers. Writes go through: `append` flushes the buffer each time.
use opal.Prelude.{ℕ, ◌-◌, Bool, ◌&&◌, Option, none, some, length, take, drop, leb, if◌then◌else◌}
use opal.Storage.Bitcask.Data.{
  DataFileEntry, LogIndex, Error, io, serialization, not_found, add_u64, sub_u64,
}
use opal.Storage.Bitcask.Crates.{Crates, LogReader}
use opal.Storage.Bitcask.Files.{Files, FileName, datafile_name, append, bytes_of, exists_in}

-- The open file and the position that `BufWriterWithPos` keeps.
pub record LogWriter : Type 0 where
  pub file : FileName
  pub pos : ℕ

-- `LogWriter::new`: the position is the end of the file.
unfoldable pub new_writer : Files → FileName → LogWriter
new_writer fs name = record { file = name; pos = length (bytes_of (fs name)) }

-- What `at` gives: the entry, an error, or the panic of a slice out of range.
pub data Fetched : Type 0 where
  fetched : DataFileEntry → Fetched
  failed : Error → Fetched
  panicked : Fetched

abbrev pub decoded : Option DataFileEntry → Fetched
decoded none = failed serialization
decoded (some e) = fetched e

-- `&self.mmap[start..end]`
abbrev pub in_mapping : ℕ → ℕ → ℕ → Bool
in_mapping start end mapped = leb start end && leb end mapped

module _ (x : Crates) where
  unfoldable pub append_entry : Files → LogWriter → DataFileEntry → LogIndex × LogWriter × Files
  append_entry fs w entry =
      let bs = x.serialize entry in
      let pos = add_u64 w.pos (length bs) in
      (record { len = sub_u64 pos w.pos; pos = w.pos }, record w { pos = pos }, append fs w.file bs)

  -- The mapping grows to the file's end when the position lies behind it.
  unfoldable pub remap : Files → ℕ → LogReader → ℕ → LogReader
  remap fs fileid reader pos =
      if leb reader.mapped pos
      then record { mapped = length (bytes_of (fs (datafile_name fileid))) }
      else reader

  unfoldable pub at : Files → ℕ → LogReader → ℕ → ℕ → Fetched × LogReader
  unfolding remap
  at fs fileid reader len pos =
      let reader = remap fs fileid reader pos in
      let end = add_u64 pos len in
      (
        (if in_mapping pos end reader.mapped
            then decoded
                (x.deserialize (take (end - pos) (drop pos (bytes_of (fs (datafile_name fileid))))))
            else panicked),
        reader,
      )

  -- `LogDir::read`; a reader that `open` cannot give leaves the cache alone.
  unfoldable pub read_opened : Files → x.Cache → ℕ → ℕ → ℕ → Fetched × x.Cache
  unfolding at
  read_opened fs cache fileid len pos =
      if exists_in fs (datafile_name fileid)
      then (let (result, reader) =
            at fs fileid (record { mapped = length (bytes_of (fs (datafile_name fileid))) }) len
              pos in
          (result, x.put cache fileid reader))
      else (failed (io not_found), cache)

  unfoldable pub read_cached : Files → x.Cache → ℕ → ℕ → ℕ → LogReader → Fetched × x.Cache
  unfolding at
  read_cached fs cache fileid len pos reader =
      let (result, reader) = at fs fileid reader len pos in
      (result, x.update (x.touch cache fileid) fileid reader)

  unfoldable pub read : Files → x.Cache → ℕ → ℕ → ℕ → Fetched × x.Cache
  read fs cache fileid len pos = elim (x.peek cache fileid) [
    | some reader ↦ read_cached fs cache fileid len pos reader
    | none ↦ read_opened fs cache fileid len pos
  ]
