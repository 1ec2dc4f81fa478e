-- ===== src/Storage/Bitcask/Data.antt =====
-- The records of storage/bitcask.rs, context.rs and log.rs, and the configuration that they read.
use opal.Prelude.{ℕ, ◌+◌, ◌-◌, ◌%◌, ◌^◌, Option}
use opal.Prelude.Int.{ℤ}
use opal.Env.{Bytes}

abbrev pub u64_size : ℕ
u64_size = 2 ^ 64

-- `u64` arithmetic as a release build does it.
abbrev pub add_u64 : ℕ → ℕ → ℕ
add_u64 a b = (a + b) % u64_size

abbrev pub sub_u64 : ℕ → ℕ → ℕ
sub_u64 a b = (a + u64_size - b) % u64_size

pub record DataFileEntry : Type 0 where
  pub tstamp : ℤ
  pub key : Bytes
  pub value : Option Bytes

pub record HintFileEntry : Type 0 where
  pub tstamp : ℤ
  pub len : ℕ
  pub pos : ℕ
  pub key : Bytes

pub record KeyDirEntry : Type 0 where
  pub fileid : ℕ
  pub len : ℕ
  pub pos : ℕ
  pub tstamp : ℤ

pub record LogIndex : Type 0 where
  pub len : ℕ
  pub pos : ℕ

pub data SyncStrategy : Type 0 where
  no_sync always : SyncStrategy
  interval_ms : ℕ → SyncStrategy

-- The part of `Config` that reads and writes use.
pub record Config : Type 0 where
  pub max_file_size : ℕ
  pub sync : SyncStrategy

-- Kinds of `io::Error` that the code meets.
pub data IoKind : Type 0 where
  not_found already_exists : IoKind

pub data Error : Type 0 where
  closed serialization : Error
  io : IoKind → Error
