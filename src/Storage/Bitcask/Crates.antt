-- ===== src/Storage/Bitcask/Crates.antt =====
-- What the engine takes from other crates: `bincode`, the map of `crossbeam_skiplist` and the cache of
-- `lru`, with the documented laws that the proofs rely on.
use opal.Prelude.{ℕ, ◌≡◌, ◌≢◌, ◌⊎◌, Option, none, some}
use opal.Env.{Bytes}
use opal.Storage.Bitcask.Data.{DataFileEntry, KeyDirEntry}

-- `LogReader`: how much of the data file with its id is mapped.
pub record LogReader : Type 0 where
  pub mapped : ℕ

pub record Crates : Type 1 where
  pub serialize : DataFileEntry → Bytes
  -- `None` is an error of `bincode`.
  pub deserialize : Bytes → Option DataFileEntry
  pub KeyDir : Type 0
  pub get : KeyDir → Bytes → Option KeyDirEntry
  pub insert : KeyDir → Bytes → KeyDirEntry → KeyDir
  pub remove : KeyDir → Bytes → KeyDir
  pub Cache : Type 0
  -- What `get_mut` finds; `touch` is its effect on the order of use, `update` a write through it.
  pub peek : Cache → ℕ → Option LogReader
  pub touch : Cache → ℕ → Cache
  pub update : Cache → ℕ → LogReader → Cache
  pub put : Cache → ℕ → LogReader → Cache

pub record IsLawful (x : Crates) : Type 0 where
  pub deserialize-serialize : (e : DataFileEntry) → x.deserialize (x.serialize e) ≡ some e
  pub get-insert_self :
      (m : x.KeyDir) (k : Bytes) (e : KeyDirEntry) → x.get (x.insert m k e) k ≡ some e
  pub get-insert_ne :
      (m : x.KeyDir) (k j : Bytes) (e : KeyDirEntry) → k ≢ j → x.get (x.insert m k e) j ≡ x.get m j
  pub get-remove_self : (m : x.KeyDir) (k : Bytes) → x.get (x.remove m k) k ≡ none
  pub get-remove_ne : (m : x.KeyDir) (k j : Bytes) → k ≢ j → x.get (x.remove m k) j ≡ x.get m j
  pub peek-touch : (c : x.Cache) (i j : ℕ) → x.peek (x.touch c i) j ≡ x.peek c j
  pub peek-update :
      (c : x.Cache) (i j : ℕ) (r : LogReader)
      → (x.peek (x.update c i r) j ≡ x.peek c j) ⊎ ((i ≡ j) × (x.peek (x.update c i r) j ≡ some r))
  -- A full cache evicts.
  pub peek-put :
      (c : x.Cache) (i j : ℕ) (r : LogReader)
      → (x.peek (x.put c i r) j ≡ x.peek c j)
        ⊎ (x.peek (x.put c i r) j ≡ none)
        ⊎ ((i ≡ j) × (x.peek (x.put c i r) j ≡ some r))
