-- ===== src/Storage/Bitcask/Store/Fresh.antt =====
-- A store with one empty data file, for the tests.
use opal.Prelude.{◌≡◌, refl, ap, false, none, some, [], ◌∷◌, length, arith}
use opal.Storage.Bitcask.Data.{KeyDirEntry, no_sync}
use opal.Storage.Bitcask.Crates.{LogReader}
use opal.Storage.Bitcask.Files.{Files, datafile_name, created, data_of-created, exists_in-created}
use opal.Storage.Bitcask.Store.{Store}
use opal.Storage.Bitcask.Store.Toy.{toy}
use opal.Storage.Bitcask.Store.Located.{IsValid, IsSound}

abbrev no_files : Files
no_files name = none

abbrev files : Files
files = created no_files 1

abbrev pub store : Store toy
store = record {
  files = files;
  keydir = λ k. none;
  closed = false;
  conf = record { max_file_size = 4; sync = no_sync };
  writer = record { file = datafile_name 1; pos = 0 };
  stats = [];
  active_fileid = 1;
  written_bytes = 0;
  readers = (λ i. none) ∷ (λ i. none) ∷ [];
}

store-IsSound : IsSound toy store (λ i. none)
store-IsSound = record {
  within = λ i r h. absurd (none_ne h);
  known = λ i r h. absurd (none_ne h);
  clears = λ i r k e h. absurd (none_ne h);
}
  where
    none_ne : {r : LogReader} → none ≡ some r → ⊥
    none_ne h = ground arith

pub store-IsValid : IsValid toy store
unfolding created
store-IsValid = record {
  entries = λ k e h. absurd (none_ne h);
  writes_active = refl;
  active_exists = exists_in-created no_files 1 1;
  at_end = refl;
  fresh = λ i h. ground (arith, exists_in-created no_files 1 i);
  small = λ i. ground (arith, ap length (data_of-created no_files 1 i));
  sound = (store-IsSound, (store-IsSound, tt));
}
  where
    none_ne : {e : KeyDirEntry} → none ≡ some e → ⊥
    none_ne h = ground arith
