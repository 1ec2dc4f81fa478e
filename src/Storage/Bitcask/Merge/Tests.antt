-- ===== src/Storage/Bitcask/Merge/Tests.antt =====
-- A merge of a store with three files, two of which are not active.
use opal.Prelude.{
  ℕ, ℕ_discrete, ◌/◌, ◌*◌, ◌≡◌, refl, ap, subst, true, false, none, some, List, [], ◌∷◌, length,
  ltb, arith,
}
use opal.Prelude.Int.{pos}
use opal.Storage.Bitcask.Data.{KeyDirEntry, no_sync}
use opal.Storage.Bitcask.Config.{window, MergeStrategy}
use opal.Storage.Bitcask.Config.Tests.{tenths}
use opal.Storage.Bitcask.Crates.{LogReader}
use opal.Storage.Bitcask.Files.{
  Files, create, append, datafile_name, created, exists_in, data_of-created, exists_in-created,
}
use opal.Storage.Bitcask.Stats.{at_entry, overwrite, add_live}
use opal.Storage.Bitcask.Log.{new_writer, append_entry}
use opal.Storage.Bitcask.Store.{
  Store, Result, ok, put, writer_put, keydir_set, write, appended, rotate, new_active_datafile,
}
use opal.Storage.Bitcask.Store.Append.{Bytes-discrete}
use opal.Storage.Bitcask.Store.Located.{IsValid, IsSound}
use opal.Storage.Bitcask.Store.Session.{
  Call, Reply, put_of, done, call_all, IsReady, call_all-expect_all,
}
use opal.Storage.Bitcask.Merge.{
  Compares, Merging, finished, contains, fileids_to_merge, can_merge, any_triggered, fragmentation,
}
use opal.Storage.Bitcask.Merge.Writer.{merge}
use opal.Storage.Bitcask.Merge.Keeps.{IsMergeable, Keeps, merge-Keeps}
use opal.Storage.Bitcask.Merge.Toy.{small, small-IsLawful, small_copies, small-IsIteration}

abbrev no_files : Files
no_files name = none

abbrev pub start : Store small
start = record {
  files = created no_files 1;
  keydir = [];
  closed = false;
  conf = record { max_file_size = 4; sync = no_sync };
  writer = record { file = datafile_name 1; pos = 0 };
  stats = [];
  active_fileid = 1;
  written_bytes = 0;
  readers = (λ i. none) ∷ [];
}

empty-IsSound : (s : Store small) → IsSound small s (λ i. none)
empty-IsSound s = record {
  within = λ i r h. absurd (none_ne h);
  known = λ i r h. absurd (none_ne h);
  clears = λ i r k e h. absurd (none_ne h);
}
  where
    none_ne : {r : LogReader} → none ≡ some r → ⊥
    none_ne h = ground arith

start-IsReady : IsReady small start 2 21
unfolding created
start-IsReady = record {
  valid = record {
    entries = λ k e h. absurd (none_ne h);
    writes_active = refl;
    active_exists = exists_in-created no_files 1 1;
    at_end = refl;
    fresh = λ i h. ground (arith, exists_in-created no_files 1 i);
    small = λ i. ground (arith, ap length (data_of-created no_files 1 i));
    sound = (empty-IsSound start, tt);
  };
  is_open = refl;
  reader = (λ i. none, [], refl);
  room = omega arith;
  ids = omega arith;
}
  where
    none_ne : {e : KeyDirEntry} → none ≡ some e → ⊥
    none_ne h = ground arith

abbrev calls : List Call
calls = put_of (pos 1) (107 ∷ []) (118 ∷ []) ∷ put_of (pos 2) (107 ∷ []) (119 ∷ []) ∷ []

abbrev state_of : Result small (List Reply) → Store small
state_of (ok _ t) = t
state_of _ = start

abbrev pub left : Store small
left = state_of (call_all small calls start)

left_lem : call_all small calls start ≡ ok (done ∷ done ∷ []) left
unfolding call_all created put writer_put keydir_set write append_entry append appended rotate
    new_active_datafile create new_writer Bytes-discrete ℕ_discrete
left_lem = refl

left-IsValid : IsValid small left
left-IsValid =
    let (t, eq, v, _) =
      call_all-expect_all small small-IsLawful calls start (λ k. none) start-IsReady (λ j. refl) in
    let same : t ≡ left = cc (eq, left_lem) in subst (IsValid small) same v

abbrev pub merging : Merging small
merging = record { store = left; log_dir = λ i. none }

pub merging-IsMergeable : IsMergeable small small_copies merging
unfolding call_all created put writer_put keydir_set write append_entry append appended rotate
    new_active_datafile create new_writer Bytes-discrete ℕ_discrete at_entry
merging-IsMergeable = record {
  valid = left-IsValid;
  sound = empty-IsSound left;
  no_hints = λ i h. refl;
  room = λ i. ground arith;
  ids = omega arith;
  present = (refl, (refl, tt));
}

abbrev pub compares : Compares tenths
compares = record { quotient = λ a b. 10 * a / b; gt = λ a b. ltb b a }

abbrev pub strategy : MergeStrategy tenths
strategy = record {
  policy = window 1 5;
  triggers = record { fragmentation = 6; dead_bytes = 0 };
  thresholds = record { fragmentation = 4; dead_bytes = 0; small_file = 100 };
  check_interval_ms = 1000;
  check_jitter = 3;
}

merge-Keeps_example :
    (ids : List ℕ) × (t' : Merging small) × (fileids_to_merge tenths compares strategy.thresholds
        left.files left.stats
      ≡ some ids)
    × (merge small_copies tenths compares strategy merging ≡ finished t')
    × Keeps small merging t'
    × ((i : ℕ) → contains i ids ≡ true → exists_in t'.store.files (datafile_name i) ≡ false)
merge-Keeps_example =
    merge-Keeps tenths compares small small-IsLawful small_copies small-IsIteration merging
      merging-IsMergeable strategy

pub left_open : left.closed ≡ false
unfolding call_all created put writer_put keydir_set write append_entry append appended rotate
    new_active_datafile create new_writer Bytes-discrete ℕ_discrete
left_open = refl

-- At 3 o'clock the store has a file over a trigger.
left_triggered : can_merge tenths compares 3 strategy left.stats ≡ true
unfolding can_merge any_triggered fragmentation call_all created put writer_put keydir_set write
    append_entry append appended rotate new_active_datafile create new_writer Bytes-discrete
    ℕ_discrete at_entry overwrite add_live
left_triggered = refl
