-- ===== src/Storage/Bitcask/Recovery/FirstTests.antt =====
-- A small storage from its first start to its second one.
use opal.Prelude.{ℕ_discrete, ◌≡◌, refl, some, none, true, false, List, [], ◌∷◌, arith}
use opal.Prelude.Int.{pos}
use opal.Env.{Bytes}
use opal.Storage.Bitcask.Data.{no_sync, Config}
use opal.Storage.Bitcask.Files.{Files, FileName, datafile_name, create, created, append, unlink}
use opal.Storage.Bitcask.Log.{new_writer, append_entry, read, read_cached, read_opened, at, remap}
use opal.Storage.Bitcask.Store.{
  Store, Result, ok, put, writer_put, keydir_set, write, appended, rotate, new_active_datafile, get,
  reader_get, delete, writer_delete,
}
use opal.Storage.Bitcask.Store.Append.{Bytes-discrete}
use opal.Storage.Bitcask.Store.Toy.{toy, toy-IsLawful}
use opal.Storage.Bitcask.Store.Located.{view}
use opal.Storage.Bitcask.Store.Session.{
  Call, Reply, put_of, get_of, delete_of, done, found, existed, expect_all, call_all,
}
use opal.Storage.Bitcask.Recovery.{
  opened, open_storage, drop_writer, start, rebuild_storage, load_files, sorted_fileids,
  most_recent,
}
use opal.Storage.Bitcask.Recovery.Toy.{toy_streams, toy-IsStream}
use opal.Storage.Bitcask.Recovery.Reopen.{IsReopened}
use opal.Storage.Bitcask.Recovery.Left.{Lists}
use opal.Storage.Bitcask.Recovery.First.{IsEmpty, open_storage-call_all-open_storage}

abbrev no_files : Files
no_files name = none

no_files-IsEmpty : IsEmpty no_files []
no_files-IsEmpty = record {
  no_data = λ i. refl;
  no_hints = λ i. refl;
  none_listed = λ i. refl;
  small = λ i. omega arith;
}

abbrev conf : Config
conf = record { max_file_size = 4; sync = no_sync }

abbrev first : Store toy
first = record {
  files = created no_files 0;
  keydir = λ k. none;
  closed = false;
  conf = conf;
  writer = record { file = datafile_name 0; pos = 0 };
  stats = [];
  active_fileid = 0;
  written_bytes = 0;
  readers = (λ i. none) ∷ [];
}

first_lem : open_storage toy_streams conf 1 no_files [] ≡ opened first
unfolding open_storage rebuild_storage load_files sorted_fileids most_recent start create created
    new_writer
first_lem = refl

abbrev calls : List Call
calls =
    put_of (pos 1) (107 ∷ []) (118 ∷ [])
    ∷ get_of (107 ∷ [])
    ∷ put_of (pos 2) (108 ∷ []) (119 ∷ [])
    ∷ delete_of (pos 3) (107 ∷ [])
    ∷ []

abbrev replies : List Reply
replies = done ∷ found (some (118 ∷ [])) ∷ done ∷ existed true ∷ []

abbrev state_of : Result toy (List Reply) → Store toy
state_of (ok _ t) = t
state_of _ = first

abbrev left : Store toy
left = state_of (call_all toy calls first)

left_lem : call_all toy calls first ≡ ok replies left
unfolding call_all created put writer_put delete writer_delete keydir_set write append_entry append
    appended rotate new_active_datafile create new_writer get reader_get read read_cached
    read_opened at remap Bytes-discrete ℕ_discrete
left_lem = refl

abbrev left_names : List FileName
left_names = datafile_name 2 ∷ datafile_name 1 ∷ datafile_name 0 ∷ []

left-Lists : Lists (drop_writer left) left_names
unfolding drop_writer unlink call_all created put writer_put delete writer_delete keydir_set write
    append_entry append appended rotate new_active_datafile create new_writer get reader_get read
    read_cached read_opened at remap Bytes-discrete ℕ_discrete
left-Lists = λ i. ground arith

open_storage-call_all-open_storage_example :
    (replies ≡ (expect_all calls (λ k. none)).0)
    × (u : Store toy) × (open_storage toy_streams conf 1 (drop_writer left) left_names ≡ opened u)
    × IsReopened toy toy_streams left u conf 1
    × ((k : Bytes) → view toy u k ≡ (expect_all calls (λ k. none)).1 k)
open_storage-call_all-open_storage_example =
    open_storage-call_all-open_storage toy toy-IsLawful toy_streams toy-IsStream conf 0 no_files []
      no_files-IsEmpty calls first left replies left_names (omega arith) (omega arith) first_lem
      left_lem left-Lists
