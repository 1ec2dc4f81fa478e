-- ===== src/Storage/Bitcask/Store/Located.antt =====
-- The invariant of the engine's state: every entry of the key directory points at a whole record of
-- its key with a value, and no mapping ends inside such a record.
use opal.Prelude.{
  ℕ, ◌+◌, ◌≤◌, ◌<◌, ◌≡◌, ◌⊎◌, true, false, Option, none, some, List, [], ◌∷◌, length, take, drop,
}
use opal.Env.{Bytes}
use opal.Storage.Bitcask.Data.{DataFileEntry, KeyDirEntry, u64_size}
use opal.Storage.Bitcask.Crates.{Crates, LogReader}
use opal.Storage.Bitcask.Files.{Files, datafile_name, data_of, exists_in}
use opal.Storage.Bitcask.Store.{Store}

module _ (x : Crates) where
  -- The record that a key directory entry points at, and its value.
  unfoldable pub record_at : Files → KeyDirEntry → Option DataFileEntry
  record_at fs e = x.deserialize (take e.len (drop e.pos (data_of fs e.fileid)))

  abbrev pub value_in : Option DataFileEntry → Option Bytes
  value_in none = none
  value_in (some d) = d.value

  abbrev pub value_at : Files → Option KeyDirEntry → Option Bytes
  value_at fs none = none
  value_at fs (some e) = value_in (record_at fs e)

  -- What a store holds, as a map from keys.
  abbrev pub view : Store x → Bytes → Option Bytes
  view s k = value_at s.files (x.get s.keydir k)

  pub record IsRecord (fs : Files) (k : Bytes) (e : KeyDirEntry) : Type 0 where
    pub inside : e.pos + e.len ≤ length (data_of fs e.fileid)
    pub present : exists_in fs (datafile_name e.fileid) ≡ true
    pub holds :
        (d : DataFileEntry) × (v : Bytes) × (record_at fs e ≡ some d)
        × (d.key ≡ k)
        × (d.value ≡ some v)

  -- A mapping of this length does not end inside the record.
  abbrev pub Clears : ℕ → KeyDirEntry → Type 0
  Clears mapped e = (e.pos + e.len ≤ mapped) ⊎ (mapped ≤ e.pos)

  pub record IsSound (s : Store x) (cache : x.Cache) : Type 0 where
    pub within :
        (i : ℕ) (r : LogReader) → x.peek cache i ≡ some r → r.mapped ≤ length (data_of s.files i)
    pub known : (i : ℕ) (r : LogReader) → x.peek cache i ≡ some r → i ≤ s.active_fileid
    pub clears :
        (i : ℕ) (r : LogReader) (k : Bytes) (e : KeyDirEntry)
        → x.peek cache i ≡ some r
        → x.get s.keydir k ≡ some e
        → e.fileid ≡ i
        → Clears r.mapped e

  abbrev pub AllSound : Store x → List x.Cache → Type 0
  AllSound s [] = Unit
  AllSound s (c ∷ cs) = IsSound s c × AllSound s cs

  pub record IsValid (s : Store x) : Type 0 where
    pub entries : (k : Bytes) (e : KeyDirEntry) → x.get s.keydir k ≡ some e → IsRecord s.files k e
    pub writes_active : s.writer.file ≡ datafile_name s.active_fileid
    pub active_exists : exists_in s.files (datafile_name s.active_fileid) ≡ true
    pub at_end : s.writer.pos ≡ length (data_of s.files s.active_fileid)
    pub fresh : (i : ℕ) → s.active_fileid < i → exists_in s.files (datafile_name i) ≡ false
    pub small : (i : ℕ) → length (data_of s.files i) < u64_size
    pub sound : AllSound s s.readers
