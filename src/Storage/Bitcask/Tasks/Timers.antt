-- ===== src/Storage/Bitcask/Tasks/Timers.antt =====
-- When the merging task merges, and that a shutdown ends it.
use opal.Prelude.{ℕ, ◌≡◌, List, [], ◌∷◌, ◌++◌}
use opal.Storage.Bitcask.Config.{Floats, MergeStrategy}
use opal.Storage.Bitcask.Crates.{Crates, IsLawful}
use opal.Storage.Bitcask.Stats.{Stats}
use opal.Storage.Bitcask.Merge.{Copies, Compares, Merging}
use opal.Storage.Bitcask.Merge.Triggers.{IsTriggered}
use opal.Storage.Bitcask.Merge.Keeps.{IsIteration, IsMergeable, Keeps}
use opal.Storage.Bitcask.Tasks.{Wake, timer, signal, returned, merge_loop}

-- The timer at these hours, and then the signal.
abbrev pub until_signal : List ℕ → List Wake → List Wake
until_signal [] later = signal ∷ later
until_signal (hour ∷ hours) later = timer hour ∷ until_signal hours later

module _ (fl : Floats) (cf : Compares fl) where
  -- At none of these hours a merge is triggered.
  abbrev pub AllQuiet : MergeStrategy fl → Stats → List ℕ → Type 0
  AllQuiet strategy stats [] = Unit
  AllQuiet strategy stats (hour ∷ hours) =
      (¬ IsTriggered fl cf hour strategy stats) × AllQuiet strategy stats hours

  module _ (x : Crates) (laws : IsLawful x) (cp : Copies x) (it : IsIteration x cp) (t : Merging x)
      (r : IsMergeable x cp t) (strategy : MergeStrategy fl) where
    -- The task returns this store behind the quiet hours and one more.
    abbrev Ends : List ℕ → ℕ → List Wake → Merging x → Type 0
    Ends hours hour later u =
        merge_loop cp fl cf strategy (until_signal (hours ++ hour ∷ []) later) t ≡ returned u
