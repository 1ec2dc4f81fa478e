-- ===== src/Engine.antt =====
-- `impl KeyValueStorage for Handle` in storage/bitcask.rs: the engine as the server's storage. The
-- clock gives the time of each write; the state counts the calls.
pub mod Serves
mod Tests
use opal.Prelude.{ℕ, suc, Bool, Option}
use opal.Prelude.Int.{ℤ}
use opal.Env.{Bytes}
use opal.Net.Server.{Answer, ok, err, panics, hangs, KeyValueStorage}
use opal.Storage.Bitcask.Data.{Error}
use opal.Storage.Bitcask.Crates.{Crates}
use opal.Storage.Bitcask.Store.{
  Store, Result, ok as done, err as fails, panic, spinning, put, delete, get,
}

module _ (x : Crates) (clock : ℕ → ℤ) where
  -- A call that panics or never returns leaves a state that nobody is told of.
  abbrev pub answer : {A : Type 0} → Result x A → Store x × ℕ → Answer (Store x × ℕ) Error A
  answer (done a t) (s, calls) = ok a (t, suc calls)
  answer (fails e t) (s, calls) = err e (t, suc calls)
  answer panic s = panics s
  answer spinning s = hangs s

  abbrev pub handle : KeyValueStorage
  handle = record {
    State = Store x × ℕ;
    Failure = Error;
    set_key = λ key value s. answer (put (clock s.1) key value s.0) s;
    get_key = λ key s. answer (get key s.0) s;
    del_key = λ key s. answer (delete (clock s.1) key s.0) s;
  }
