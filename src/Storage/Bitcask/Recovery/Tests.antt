-- ===== src/Storage/Bitcask/Recovery/Tests.antt =====
-- Opening a directory that a small store has left, and one with a torn record.
use opal.Prelude.{
  ℕ_discrete, ◌<◌, ◌+◌, ◌++◌, ◌≡◌, ◌≢◌, refl, subst, true, none, some, List, [], ◌∷◌, length, ◌==◌,
  if◌then◌else◌, arith,
}
use opal.Prelude.Int.{pos}
use opal.Env.{Bytes}
use opal.Storage.Bitcask.Data.{DataFileEntry, u64_size}
use opal.Storage.Bitcask.Files.{
  Files, create, FileName, datafile_name, hintfile_name, data_of, created, append, unlink,
}
use opal.Storage.Bitcask.Log.{new_writer, append_entry, read, read_cached, read_opened, at, remap}
use opal.Storage.Bitcask.Store.{
  Store, Result, ok, put, writer_put, keydir_set, write, appended, rotate, new_active_datafile, get,
  reader_get,
}
use opal.Storage.Bitcask.Store.Toy.{toy, toy-IsLawful}
use opal.Storage.Bitcask.Store.Fresh.{store, store-IsValid}
use opal.Storage.Bitcask.Store.Located.{view}
use opal.Storage.Bitcask.Store.Append.{Bytes-discrete, written}
use opal.Storage.Bitcask.Store.Session.{
  Call, Reply, put_of, get_of, done, found, expect_all, call_all, costs, IsReady,
}
use opal.Storage.Bitcask.Recovery.{
  loaded, opened, stuck, Rebuilt, next_fileid, most_recent, rebuild_storage, open_storage,
  drop_writer,
}
use opal.Storage.Bitcask.Recovery.Toy.{toy_streams, toy-IsStream}
use opal.Storage.Bitcask.Recovery.Replay.{blank, History, replay_all, Matches}
use opal.Storage.Bitcask.Recovery.Rebuild.{IsDirectory, rebuild_storage-replay}
use opal.Storage.Bitcask.Recovery.Kept.{IsDurable}
use opal.Storage.Bitcask.Recovery.Calls.{call_all-IsDurable}
use opal.Storage.Bitcask.Recovery.Reopen.{IsReopened}
use opal.Storage.Bitcask.Recovery.Left.{Lists}
use opal.Storage.Bitcask.Recovery.Survive.{
  open_storage-drop_writer, open_storage-append, call_all-open_storage,
}
use opal.Storage.Bitcask.Recovery.Total.{open_storage_ends}

abbrev key : Bytes
key = 107 ∷ []

abbrev value : Bytes
value = 118 ∷ []

abbrev first : DataFileEntry
first = written (pos 1) key (some value)

abbrev second : DataFileEntry
second = written (pos 2) key none

-- Files 1 and 3; the first one ends in the middle of a record.
abbrev files : Files
files (datafile_name i) =
    if i == 1
    then some (record { bytes = toy.serialize first ++ 0 ∷ 1 ∷ []; linked = true })
    else if i == 3
    then some (record { bytes = toy.serialize second; linked = true })
    else none
files (hintfile_name i) = none

abbrev names : List FileName
names = datafile_name 3 ∷ datafile_name 1 ∷ datafile_name 3 ∷ []

abbrev history : History toy
history = (1, first ∷ []) ∷ (3, second ∷ []) ∷ []

history-IsDirectory : IsDirectory toy toy_streams files names history
history-IsDirectory = record {
  ascending = ((omega arith, tt), (tt, tt));
  files = (
    record {
      present = refl;
      no_hint = refl;
      written = (0 ∷ 1 ∷ [], refl, refl);
      small = omega arith;
    },
    (
      record { present = refl; no_hint = refl; written = ([], refl, refl); small = omega arith },
      tt,
    ),
  );
  complete = λ i. ground arith;
}

rebuild_storage-replay_example :
    (r : Rebuilt toy) × (rebuild_storage toy_streams files names
      ≡ (loaded r, next_fileid (most_recent none (1 ∷ 3 ∷ []))))
    × Matches toy r (replay_all toy history blank)
rebuild_storage-replay_example =
    rebuild_storage-replay toy toy-IsLawful toy_streams toy-IsStream files names history
      history-IsDirectory

open_storage_ends_example : open_storage toy_streams store.conf 2 files names ≢ stuck
open_storage_ends_example = open_storage_ends toy toy_streams toy-IsStream files store.conf 2 names

store-IsDurable : IsDurable toy toy_streams store
unfolding created replay_all
store-IsDurable = (
  [],
  [],
  record {
    ascending = (tt, tt);
    files = tt;
    active = refl;
    complete = λ i. ground arith;
    no_hints = λ i. refl;
    counts = refl;
    matches = record { entries = λ k. refl; stats = refl };
  },
)

abbrev calls : List Call
calls = put_of (pos 1) key value ∷ get_of key ∷ put_of (pos 2) (108 ∷ []) value ∷ []

abbrev run : Result toy (List Reply)
run = call_all toy calls store

abbrev state_of : Result toy (List Reply) → Store toy
state_of (ok _ t) = t
state_of _ = store

abbrev left : Store toy
left = state_of run

left_lem : run ≡ ok (done ∷ found (some value) ∷ done ∷ []) left
unfolding call_all created put writer_put keydir_set write append_entry append appended rotate
    new_active_datafile create new_writer get reader_get read read_cached read_opened at remap
    Bytes-discrete ℕ_discrete
left_lem = refl

abbrev left_names : List FileName
left_names = datafile_name 2 ∷ datafile_name 1 ∷ []

left-Lists : Lists (drop_writer left) left_names
unfolding drop_writer unlink call_all created put writer_put keydir_set write append_entry append
    appended rotate new_active_datafile create new_writer get reader_get read read_cached
    read_opened at remap Bytes-discrete ℕ_discrete
left-Lists = λ i. ground arith

store-IsReady : IsReady toy store 4 (costs toy calls + 0)
unfolding created
store-IsReady = record {
  valid = store-IsValid;
  is_open = refl;
  reader = (λ i. none, (λ i. none) ∷ [], refl);
  room = omega arith;
  ids = omega arith;
}

call_all-open_storage_example :
    (done ∷ found (some value) ∷ done ∷ [] ≡ (expect_all calls (λ k. none)).0)
    × (u : Store toy) × (open_storage toy_streams store.conf 2 (drop_writer left) left_names
        ≡ opened u)
    × IsReopened toy toy_streams left u store.conf 2
    × ((j : Bytes) → view toy u j ≡ (expect_all calls (λ k. none)).1 j)
call_all-open_storage_example =
    call_all-open_storage toy toy-IsLawful toy_streams toy-IsStream store.conf 2 calls store left
      (λ k. none) (done ∷ found (some value) ∷ done ∷ []) left_names store-IsReady store-IsDurable
      (λ j. refl) left_lem left-Lists

left_good : IsReady toy left 1 0 × IsDurable toy toy_streams left
left_good =
    let (t, eq, r, d, _) =
      call_all-IsDurable toy toy-IsLawful toy_streams toy-IsStream calls store (λ k. none) 1 0
        store-IsReady store-IsDurable (λ j. refl) in
    let same : t ≡ left = cc (eq, left_lem) in
    (subst (λ z. IsReady toy z 1 0) same r, subst (IsDurable toy toy_streams) same d)

open_storage-drop_writer_example :
    (t : Store toy) × (open_storage toy_streams store.conf 2 (drop_writer left) left_names
      ≡ opened t)
    × IsReopened toy toy_streams left t store.conf 2
open_storage-drop_writer_example =
    open_storage-drop_writer toy toy-IsLawful toy_streams toy-IsStream store.conf 2 left
      left_good.0.valid left_good.1 left_good.0.ids left_names left-Lists

torn_Lists : Lists (append left.files left.writer.file (0 ∷ 1 ∷ [])) (datafile_name 3 ∷ left_names)
unfolding call_all created put writer_put keydir_set write append_entry append appended rotate
    new_active_datafile create new_writer get reader_get read read_cached read_opened at remap
    Bytes-discrete ℕ_discrete
torn_Lists = λ i. ground arith

left_room : length (data_of left.files left.active_fileid) + 2 < u64_size
unfolding call_all created put writer_put keydir_set write append_entry append appended rotate
    new_active_datafile create new_writer get reader_get read read_cached read_opened at remap
    Bytes-discrete ℕ_discrete
left_room = omega arith

open_storage-append_example :
    (t : Store toy) × (open_storage toy_streams store.conf 2
        (append left.files left.writer.file (0 ∷ 1 ∷ []))
        (datafile_name 3 ∷ left_names)
      ≡ opened t)
    × IsReopened toy toy_streams left t store.conf 2
open_storage-append_example =
    open_storage-append toy toy-IsLawful toy_streams toy-IsStream store.conf 2 left
      left_good.0.valid left_good.1 left_good.0.ids (datafile_name 3 ∷ left_names) (0 ∷ 1 ∷ []) refl
      left_room torn_Lists
