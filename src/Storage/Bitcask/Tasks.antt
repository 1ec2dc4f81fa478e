-- ===== src/Storage/Bitcask/Tasks.antt =====
-- storage/bitcask.rs: the loops of the two background tasks, one merging and one syncing. A task is given
-- what wakes it, in order: its timer, with the hour of the day, or the signal for a shutdown.
pub mod Timers
mod Tests
use opal.Prelude.{ℕ, List, [], ◌∷◌}
use opal.Storage.Bitcask.Data.{SyncStrategy, no_sync, interval_ms}
use opal.Storage.Bitcask.Data.{always as every_time}
use opal.Storage.Bitcask.Config.{Floats, MergePolicy, always, never, window, MergeStrategy}
use opal.Storage.Bitcask.Crates.{Crates}
use opal.Storage.Bitcask.Merge.{Copies, Compares, Merging, Outcome, finished, stopped, panicked}
use opal.Storage.Bitcask.Merge.Writer.{handle_merge, handle_sync}

pub data Wake : Type 0 where
  timer : ℕ → Wake
  signal : Wake

-- The task returns, fails since its blocking part panicked, or sleeps when nothing more wakes it.
pub data Task (x : Crates) : Type 0 where
  returned : Merging x → Task x
  join_failed : Task x
  asleep : Merging x → Task x

module _ {x : Crates} where
  -- An error is logged only.
  abbrev pub then_loop : Outcome x → (Merging x → Task x) → Task x
  then_loop (finished t) loop = loop t
  then_loop (stopped e t) loop = loop t
  then_loop panicked loop = join_failed

  module _ (cp : Copies x) (fl : Floats) (cf : Compares fl) (strategy : MergeStrategy fl) where
    unfoldable pub merge_loop : List Wake → Merging x → Task x
    unfolding handle_merge
    merge_loop [] t = asleep t
    merge_loop (signal ∷ wakes) t = returned t
    merge_loop (timer hour ∷ wakes) t =
        then_loop (handle_merge cp fl cf strategy hour t) (merge_loop wakes)

    abbrev pub unless_never : MergePolicy → Merging x → Task x → Task x
    unless_never never t task = returned t
    unless_never always t task = task
    unless_never (window start end) t task = task

    unfoldable pub merge_on_interval : List Wake → Merging x → Task x
    unfolding merge_loop
    merge_on_interval wakes t = unless_never strategy.policy t (merge_loop wakes t)

  unfoldable pub sync_loop : List Wake → Merging x → Task x
  unfolding handle_sync
  sync_loop [] t = asleep t
  sync_loop (signal ∷ wakes) t = returned t
  sync_loop (timer _ ∷ wakes) t = then_loop (handle_sync t) (sync_loop wakes)

  abbrev pub if_interval : SyncStrategy → Merging x → Task x → Task x
  if_interval (interval_ms ms) t task = task
  if_interval no_sync t task = returned t
  if_interval every_time t task = returned t

  unfoldable pub sync_on_interval : List Wake → Merging x → Task x
  unfolding sync_loop
  sync_on_interval wakes t = if_interval t.store.conf.sync t (sync_loop wakes t)
