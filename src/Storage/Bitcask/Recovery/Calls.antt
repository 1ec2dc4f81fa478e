-- ===== src/Storage/Bitcask/Recovery/Calls.antt =====
-- Sequences of calls on a store with a history.
use opal.Prelude.{ℕ, suc, ◌+◌, ◌≡◌, refl, subst, Option, List, [], ◌∷◌, ◌++◌, length, arith}
use opal.Env.{Bytes}
use opal.Storage.Bitcask.Crates.{Crates, IsLawful}
use opal.Storage.Bitcask.Store.{Store, ok, get}
use opal.Storage.Bitcask.Store.Located.{view}
use opal.Storage.Bitcask.Store.Append.{Fits}
use opal.Storage.Bitcask.Store.Get.{get-view}
use opal.Storage.Bitcask.Store.Session.{
  Call, put_of, delete_of, get_of, Contents, expect, expect_all, call, call_all, cost, costs,
  IsReady, IsReady-weaken, put-assign, delete-assign, get-lookup,
}
use opal.Storage.Bitcask.Recovery.{Streams}
use opal.Storage.Bitcask.Recovery.Replay.{IsStream}
use opal.Storage.Bitcask.Recovery.Kept.{IsDurable, put-IsDurable, delete-IsDurable}

module _ (x : Crates) (laws : IsLawful x) (st : Streams x) (io_laws : IsStream x st) where
  reading-IsDurable :
      (s : Store x) (cs : List x.Cache)
      → IsDurable x st s
      → IsDurable x st (record s { readers = cs })
  reading-IsDurable s cs (older, ds, g) = (
    older,
    ds,
    record {
      ascending = g.ascending;
      files = g.files;
      active = g.active;
      complete = g.complete;
      no_hints = g.no_hints;
      counts = g.counts;
      matches = g.matches;
    },
  )

  get-IsDurable :
      (s : Store x) (n b : ℕ) (key : Bytes) (t : Store x) (o : Option Bytes)
      → IsReady x s n b
      → IsDurable x st s
      → get key s ≡ ok o t
      → IsDurable x st t
  get-IsDurable s n b key t o r g h =
      let (c, cs, e) = r.reader in
      let (c', eq, v) = get-view x laws s r.valid r.is_open key c cs e in
      subst (IsDurable x st) (cc (h, eq)) (reading-IsDurable s (cs ++ c' ∷ []) g)

  -- One call, as in `call-expect`, on a store that is durable.
  call-IsDurable :
      (c : Call) (s : Store x) (m : Contents) (n b : ℕ)
      → IsReady x s (suc n) (cost x c + b)
      → IsDurable x st s
      → ((j : Bytes) → view x s j ≡ m j)
      → (t : Store x) × (call x c s ≡ ok (expect c m).0 t)
        × IsReady x t n b
        × IsDurable x st t
        × ((j : Bytes) → view x t j ≡ (expect c m).1 j)
  call-IsDurable (put_of now key value) s m n b r (older, ds, g) h =
      let (t, eq, q, f) = put-assign x laws s m n b h now key value r in
      let fits : Fits x s _ = record {
        room = omega (arith, r.room);
        next_id = omega (arith, r.ids);
      } in
      (
        t,
        rw eq refl,
        q,
        put-IsDurable x laws st io_laws s r.valid older ds g now key r.is_open value fits t eq,
        f,
      )
  call-IsDurable (delete_of now key) s m n b r (older, ds, g) h =
      let (t, eq, q, f) = delete-assign x laws s m n b h now key r in
      let fits : Fits x s _ = record {
        room = omega (arith, r.room);
        next_id = omega (arith, r.ids);
      } in
      (
        t,
        rw eq refl,
        q,
        delete-IsDurable x laws st io_laws s r.valid older ds g now key r.is_open fits t _ eq,
        f,
      )
  call-IsDurable (get_of key) s m n b r g h =
      let r' : IsReady x s (suc n) b = subst (λ z. IsReady x s (suc n) z) (omega arith) r in
      let (t, eq, q, f) = get-lookup x laws s m n b h key r' in
      (t, rw eq refl, q, get-IsDurable s (suc n) b key t _ r' g eq, f)

  -- Any sequence of puts, deletes and gets through a handle that is ready for it, and for some more, on a
  -- store whose files say what is in memory, succeeds with the replies of a map; in the end the store is
  -- ready for the rest, it holds what the map has, and its files say what is in memory.
  pub call_all-IsDurable :
      (cs : List Call) (s : Store x) (m : Contents) (n b : ℕ)
      → IsReady x s (length cs + n) (costs x cs + b)
      → IsDurable x st s
      → ((j : Bytes) → view x s j ≡ m j)
      → (t : Store x) × (call_all x cs s ≡ ok (expect_all cs m).0 t)
        × IsReady x t n b
        × IsDurable x st t
        × ((j : Bytes) → view x t j ≡ (expect_all cs m).1 j)
  unfolding call_all expect_all
  call_all-IsDurable [] s m n b r g h =
      (s, refl, IsReady-weaken x laws s (0 + n) n (0 + b) b (omega arith) (omega arith) r, g, h)
  call_all-IsDurable (c ∷ cs) s m n b r g h =
      let r' =
        IsReady-weaken x laws s _ (suc (length cs + n)) _ (cost x c + (costs x cs + b))
          (omega arith) (omega arith) r in
      let (t, eq, q, f, k) = call-IsDurable c s m (length cs + n) (costs x cs + b) r' g h in
      let (u, eq', q', f', k') = call_all-IsDurable cs t (expect c m).1 n b q f k in
      (u, rw eq (rw eq' refl), q', f', k')
