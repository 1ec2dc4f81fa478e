-- ===== src/Engine/Serves.antt =====
-- The handler of a connection over the engine, against a map from keys to values.
use opal.Prelude.{
  ℕ, suc, ◌+◌, ◌≤◌, ◌≡◌, refl, none, some, List, [], ◌∷◌, length, arith, if◌then◌else◌,
}
use opal.Prelude.Int.{ℤ, pos}
use opal.Env.{Env, Bytes, IsDocumented}
use opal.Net.Frame.Data.{Frame, integer, simple_string}
use opal.Net.Command.{Command, del, get, set}
use opal.Net.Server.{ok, apply, del_keys, found, okay, run, finished}
use opal.Net.Server.Serves.{Answers, AllExchanges, requests, responses, run-Answers}
use opal.Storage.Bitcask.Crates.{Crates, IsLawful}
use opal.Storage.Bitcask.Store.{Store}
use opal.Storage.Bitcask.Store.Located.{view}
use opal.Storage.Bitcask.Store.Append.{written}
use opal.Storage.Bitcask.Store.Session.{
  Contents, assign, has, IsReady, IsReady-weaken, put-assign, delete-assign, get-lookup,
}
use opal.Engine.{handle}

-- What a command does to a map, and its response.
abbrev pub expect_del : List Bytes → ℕ → Contents → ℕ × Contents
expect_del [] n m = (n, m)
expect_del (k ∷ ks) n m = expect_del ks (if has (m k) then n + 1 else n) (assign k none m)

abbrev pub expect : Command → Contents → Frame × Contents
expect (del ks) m = let (n, m') = expect_del ks 0 m in (integer (pos n), m')
expect (get key) m = (found (m key), m)
expect (set key value) m = (simple_string okay, assign key (some value) m)

-- The commands with the map's responses.
abbrev pub exchanges : List Command → Contents → List (Command × Frame)
exchanges [] m = []
exchanges (c ∷ cs) m = let (f, m') = expect c m in (c, f) ∷ exchanges cs m'

abbrev pub expect_all : List Command → Contents → Contents
expect_all [] m = m
expect_all (c ∷ cs) m = expect_all cs (expect c m).1

-- How many calls of the engine a command makes.
abbrev pub calls_of : Command → ℕ
calls_of (del ks) = length ks
calls_of (get key) = 1
calls_of (set key value) = 1

abbrev pub all_calls : List Command → ℕ
all_calls [] = 0
all_calls (c ∷ cs) = calls_of c + all_calls cs

module _ (x : Crates) (clock : ℕ → ℤ) where
  -- The bytes that a command appends when `i` calls were made before, and the calls after it.
  abbrev del_cost : ℕ → List Bytes → ℕ
  del_cost i [] = 0
  del_cost i (k ∷ ks) = length (x.serialize (written (clock i) k none)) + del_cost (suc i) ks

  abbrev after_del : ℕ → List Bytes → ℕ
  after_del i [] = i
  after_del i (k ∷ ks) = after_del (suc i) ks

  abbrev pub cost : ℕ → Command → ℕ
  cost i (del ks) = del_cost i ks
  cost i (get key) = 0
  cost i (set key value) = length (x.serialize (written (clock i) key (some value)))

  abbrev pub after : ℕ → Command → ℕ
  after i (del ks) = after_del i ks
  after i (get key) = suc i
  after i (set key value) = suc i

  abbrev pub costs : ℕ → List Command → ℕ
  costs i [] = 0
  costs i (c ∷ cs) = cost i c + costs (after i c) cs

module _ (x : Crates) (laws : IsLawful x) (clock : ℕ → ℤ) where
  del_keys-expect_del :
      (ks : List Bytes) (count i n b : ℕ) (s : Store x) (m : Contents)
      → IsReady x s (length ks + n) (del_cost x clock i ks + b)
      → ((j : Bytes) → view x s j ≡ m j)
      → (t : Store x) × (del_keys (handle x clock) ks count (s, i)
          ≡ ok (expect_del ks count m).0 (t, after_del x clock i ks))
        × IsReady x t n b
        × ((j : Bytes) → view x t j ≡ (expect_del ks count m).1 j)
  unfolding del_keys
  del_keys-expect_del [] count i n b s m r h =
      (s, refl, IsReady-weaken x laws s _ n _ b (omega arith) (omega arith) r, h)
  del_keys-expect_del (k ∷ ks) count i n b s m r h =
      let (u, eq, q, g) =
        delete-assign x laws s m (length ks + n) (del_cost x clock (suc i) ks + b) h (clock i) k
          (IsReady-weaken x laws s _ _ _ _ (omega arith) (omega arith) r) in
      let (t, eq', q', g') =
        del_keys-expect_del ks (if has (m k) then count + 1 else count) (suc i) n b u
          (assign k none m) q g in
      (t, rw eq eq', q', g')

  apply-expect :
      (c : Command) (i n b : ℕ) (s : Store x) (m : Contents)
      → IsReady x s (calls_of c + n) (cost x clock i c + b)
      → ((j : Bytes) → view x s j ≡ m j)
      → (t : Store x) × (apply (handle x clock) c (s, i) ≡ ok (expect c m).0 (t, after x clock i c))
        × IsReady x t n b
        × ((j : Bytes) → view x t j ≡ (expect c m).1 j)
  unfolding apply
  apply-expect (del ks) i n b s m r h =
      let (t, eq, q, g) = del_keys-expect_del ks 0 i n b s m r h in (t, rw eq refl, q, g)
  apply-expect (get key) i n b s m r h =
      let r' = IsReady-weaken x laws s _ (suc n) _ b (omega arith) (omega arith) r in
      let (t, eq, q, g) = get-lookup x laws s m n b h key r' in (t, rw eq refl, q, g)
  apply-expect (set key value) i n b s m r h =
      let r' = IsReady-weaken x laws s _ (suc n) _ _ (omega arith) (omega arith) r in
      let (t, eq, q, g) = put-assign x laws s m n b h (clock i) key value r' in
      (t, rw eq refl, q, g)

  exchanges-Answers :
      (cs : List Command) (i : ℕ) (s : Store x) (m : Contents)
      → IsReady x s (all_calls cs) (costs x clock i cs)
      → ((j : Bytes) → view x s j ≡ m j)
      → (t : Store x × ℕ) × Answers (handle x clock) (exchanges cs m) (s, i) t
        × ((j : Bytes) → view x t.0 j ≡ expect_all cs m j)
  exchanges-Answers [] i s m r h = ((s, i), refl, h)
  exchanges-Answers (c ∷ cs) i s m r h =
      let (u, eq, q, g) =
        apply-expect c i (all_calls cs) (costs x clock (after x clock i c) cs) s m r h in
      let (t, a, k) = exchanges-Answers cs (after x clock i c) u (expect c m).1 q g in
      (t, ((u, after x clock i c), eq, a), k)

  -- A handler over an engine that is ready for the commands, with their requests whole in its buffer,
  -- answers them as a map from keys to values would that starts with what the engine holds: it sends
  -- the map's responses in order and ends without an error, and the engine then holds what the map has.
  -- The commands are proper, and their requests and responses can be written.
  pub run-exchanges :
      ⦃e : Env⦄ (env_laws : IsDocumented e) (cs : List Command) (n i : ℕ) (s : Store x)
      (m : Contents)
      → length (exchanges cs m) ≤ n
      → AllExchanges (exchanges cs m)
      → IsReady x s (all_calls cs) (costs x clock i cs)
      → ((j : Bytes) → view x s j ≡ m j)
      → (t : Store x × ℕ) × (run (handle x clock) n (s, i) (requests (exchanges cs m)) []
          ≡ record { state = t; output = responses (exchanges cs m); ended = finished })
        × ((j : Bytes) → view x t.0 j ≡ expect_all cs m j)
  run-exchanges env_laws cs n i s m l a r h =
      let (t, q, g) = exchanges-Answers cs i s m r h in
      (t, run-Answers (handle x clock) env_laws (exchanges cs m) n (s, i) t l a q, g)
