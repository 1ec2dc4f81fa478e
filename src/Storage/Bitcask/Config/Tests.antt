-- ===== src/Storage/Bitcask/Config/Tests.antt =====
-- Fractions in tenths, for the tests.
use opal.Prelude.{ℕ, ◌≡◌, ◌↔◌, some, List, [], ◌∷◌, leb, arith}
use opal.Storage.Bitcask.Data.{no_sync}
use opal.Storage.Bitcask.Config.{
  Floats, IsOrdered, Config, Setting, default_merge, window, max_file_size, merge_policy,
  merge_trigger_fragmentation, configure_all, default_config,
}
use opal.Storage.Bitcask.Config.Proper.{
  AllProper, configure_all-IsProper, configure_all_iff, AllAllowed,
}

abbrev pub tenths : Floats
tenths = record { Float = ℕ; tenths = λ n. n; in_unit = λ n. leb n 10 }

tenths-IsOrdered : IsOrdered tenths
tenths-IsOrdered = record { in_unit-tenths = λ n h. ground arith }

abbrev settings : List (Setting tenths)
settings =
    max_file_size 4096 (omega arith)
    ∷ merge_policy (window 1 5)
    ∷ merge_trigger_fragmentation 7
    ∷ []

configure_all-IsProper_example :
    AllProper tenths (configure_all tenths settings (default_config tenths (b'.' ∷ []) 8))
configure_all-IsProper_example =
    configure_all-IsProper tenths tenths-IsOrdered settings (b'.' ∷ []) 8

abbrev config : Config tenths
config = record {
  path = b'.' ∷ [];
  concurrency = 8;
  readers_cache_size = 256;
  max_file_size = 4096;
  sync = no_sync;
  merge = default_merge tenths;
}

configure_all_iff_example :
    ((d : Config tenths) × (configure_all tenths settings (some config) ≡ some d))
    ↔ AllAllowed tenths settings
configure_all_iff_example = configure_all_iff tenths settings config
