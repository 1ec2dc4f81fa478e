-- ===== src/Storage/Bitcask/Stats.antt =====
-- storage/bitcask/log.rs: `LogStatistics`, and the writer's map of them from file ids.
use opal.Prelude.{ℕ, ◌≡◌, List, [], ◌∷◌, ◌==◌, if◌then◌else◌, arith}
use opal.Storage.Bitcask.Data.{add_u64, sub_u64}

pub record LogStatistics : Type 0 where
  pub live_keys : ℕ
  pub dead_keys : ℕ
  pub dead_bytes : ℕ

abbrev pub default : LogStatistics
default = record { live_keys = 0; dead_keys = 0; dead_bytes = 0 }

unfoldable pub add_live : LogStatistics → LogStatistics
add_live s = record s { live_keys = add_u64 s.live_keys 1 }

unfoldable pub add_dead : ℕ → LogStatistics → LogStatistics
add_dead nbytes s = record s {
  dead_keys = add_u64 s.dead_keys 1;
  dead_bytes = add_u64 s.dead_bytes nbytes;
}

unfoldable pub overwrite : ℕ → LogStatistics → LogStatistics
overwrite nbytes s = record {
  live_keys = sub_u64 s.live_keys 1;
  dead_keys = add_u64 s.dead_keys 1;
  dead_bytes = add_u64 s.dead_bytes nbytes;
}

abbrev pub Stats : Type 0
Stats = List (ℕ × LogStatistics)

-- `stats.entry(id).or_default()`, changed by `f`.
unfoldable pub at_entry : ℕ → (LogStatistics → LogStatistics) → Stats → Stats
at_entry id f [] = (id, f default) ∷ []
at_entry id f ((j, s) ∷ rest) = if j == id then (j, f s) ∷ rest else (j, s) ∷ at_entry id f rest

unfoldable pub stats_of : ℕ → Stats → LogStatistics
stats_of id [] = default
stats_of id ((j, s) ∷ rest) = if j == id then s else stats_of id rest

pub stats_of-at_entry :
    (id j : ℕ) (f : LogStatistics → LogStatistics) (m : Stats)
    → stats_of j (at_entry id f m) ≡ (if id == j then f (stats_of id m) else stats_of j m)
unfolding at_entry stats_of
stats_of-at_entry id j f [] = ground arith
stats_of-at_entry id j f ((i, s) ∷ rest) = ground (arith, stats_of-at_entry id j f rest)
