-- ===== src/Storage/Bitcask/Config.antt =====
-- storage/bitcask/config.rs: the configuration, its defaults and its setters. A path is its bytes; an
-- `f64` is only compared with the bounds of [0, 1] here.
pub mod Proper
pub mod Tests
use opal.Prelude.{
  ℕ, ◌*◌, ◌^◌, ◌≤◌, ◌<◌, ◌≡◌, refl, ap, ◌∙◌, Bool, true, false, ◌&&◌, Option, none, some, List, [],
  ◌∷◌, ltb, if◌then◌else◌, arith, Bool-cases, inl, inr,
}
use opal.Env.{Bytes}
use opal.Storage.Bitcask.Data.{SyncStrategy, no_sync}

-- `f64` literals with one digit, and `(0.0..=1.0).contains`.
pub record Floats : Type 1 where
  pub Float : Type 0
  pub tenths : ℕ → Float
  pub in_unit : Float → Bool

pub record IsOrdered (fl : Floats) : Type 0 where
  pub in_unit-tenths : (n : ℕ) → n ≤ 10 → fl.in_unit (fl.tenths n) ≡ true

pub data MergePolicy : Type 0 where
  always never : MergePolicy
  window : ℕ → ℕ → MergePolicy

abbrev pub hours : MergePolicy → Bool
hours always = true
hours never = true
hours (window start end) = ltb start 24 && ltb end 24

module _ (fl : Floats) where
  pub record MergeTriggers : Type 0 where
    pub fragmentation : fl.Float
    pub dead_bytes : ℕ

  pub record MergeThresholds : Type 0 where
    pub fragmentation : fl.Float
    pub dead_bytes : ℕ
    pub small_file : ℕ

  pub record MergeStrategy : Type 0 where
    pub policy : MergePolicy
    pub triggers : MergeTriggers
    pub thresholds : MergeThresholds
    pub check_interval_ms : ℕ
    pub check_jitter : fl.Float

  pub record Config : Type 0 where
    pub path : Bytes
    pub concurrency : ℕ
    pub readers_cache_size : ℕ
    pub max_file_size : ℕ
    pub sync : SyncStrategy
    pub merge : MergeStrategy

  abbrev pub default_triggers : MergeTriggers
  default_triggers = record { fragmentation = fl.tenths 6; dead_bytes = 512 * 1024 * 1024 }

  abbrev pub default_thresholds : MergeThresholds
  default_thresholds = record {
    fragmentation = fl.tenths 4;
    dead_bytes = 128 * 1024 * 1024;
    small_file = 10 * 1024 * 1024;
  }

  abbrev pub default_merge : MergeStrategy
  default_merge = record {
    check_interval_ms = 18000;
    check_jitter = fl.tenths 3;
    policy = always;
    triggers = default_triggers;
    thresholds = default_thresholds;
  }

  -- `current_dir` and the number of processors come from the system; none of the latter is a panic.
  unfoldable pub default_config : Bytes → ℕ → Option Config
  default_config current_dir cpus =
      if ltb 0 cpus
      then some (record {
        path = current_dir;
        concurrency = cpus;
        readers_cache_size = 256;
        max_file_size = 2 * 1024 * 1024 * 1024;
        sync = no_sync;
        merge = default_merge;
      })
      else none

  -- A call of a setter; a size that is a `NonZero` in the source is positive.
  pub data Setting : Type 0 where
    path : Bytes → Setting
    concurrency : (n : ℕ) → 0 < n → Setting
    readers_cache_size : (n : ℕ) → 0 < n → Setting
    max_file_size : (n : ℕ) → 0 < n → Setting
    sync : SyncStrategy → Setting
    merge_policy : MergePolicy → Setting
    merge_trigger_fragmentation : fl.Float → Setting
    merge_trigger_dead_bytes : ℕ → Setting
    merge_threshold_fragmentation : fl.Float → Setting
    merge_threshold_dead_bytes : ℕ → Setting
    merge_threshold_small_file : ℕ → Setting
    merge_check_interval_ms : ℕ → Setting
    merge_check_jitter : fl.Float → Setting

  abbrev pub asserted : Bool → Config → Option Config
  asserted holds c = if holds then some c else none

  abbrev with_triggers : Config → MergeTriggers → Config
  with_triggers c t = let m = c.merge in record c { merge = record m { triggers = t } }

  abbrev with_thresholds : Config → MergeThresholds → Config
  with_thresholds c t = let m = c.merge in record c { merge = record m { thresholds = t } }

  -- The setters; `none` is a failed `assert!`.
  unfoldable pub configure : Setting → Config → Option Config
  configure (path p) c = some (record c { path = p })
  configure (concurrency n _) c = some (record c { concurrency = n })
  configure (readers_cache_size n _) c = some (record c { readers_cache_size = n })
  configure (max_file_size n _) c = some (record c { max_file_size = n })
  configure (sync s) c = some (record c { sync = s })
  configure (merge_policy p) c =
      let m = c.merge in asserted (hours p) (record c { merge = record m { policy = p } })
  configure (merge_trigger_fragmentation f) c =
      let t = c.merge.triggers in
      asserted (fl.in_unit f) (with_triggers c (record t { fragmentation = f }))
  configure (merge_trigger_dead_bytes n) c =
      let t = c.merge.triggers in some (with_triggers c (record t { dead_bytes = n }))
  configure (merge_threshold_fragmentation f) c =
      let t = c.merge.thresholds in
      asserted (fl.in_unit f) (with_thresholds c (record t { fragmentation = f }))
  configure (merge_threshold_dead_bytes n) c =
      let t = c.merge.thresholds in some (with_thresholds c (record t { dead_bytes = n }))
  configure (merge_threshold_small_file n) c =
      let t = c.merge.thresholds in some (with_thresholds c (record t { small_file = n }))
  configure (merge_check_interval_ms n) c =
      let m = c.merge in some (record c { merge = record m { check_interval_ms = n } })
  configure (merge_check_jitter f) c =
      let m = c.merge in
      asserted (fl.in_unit f) (record c { merge = record m { check_jitter = f } })

  unfoldable pub configure_all : List Setting → Option Config → Option Config
  configure_all settings none = none
  configure_all [] (some c) = some c
  configure_all (s ∷ settings) (some c) = configure_all settings (configure s c)
