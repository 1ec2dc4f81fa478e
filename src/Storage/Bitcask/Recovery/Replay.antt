-- ===== src/Storage/Bitcask/Recovery/Replay.antt =====
-- What a data file says: the entries that were written to it in order, replayed into a key directory
-- and statistics. Recovery computes the replay of the files, up to a torn entry at the end of each.
use opal.Prelude.{
  ℕ, zero, suc, ◌+◌, ◌≤◌, ◌<◌, ◌≡◌, refl, ap, ◌∙◌, subst, Option, none, some, List, [], ◌∷◌, ◌++◌,
  length, length-append, append_assoc, drop, drop-length, arith,
}
use opal.Prelude.Int.{ℤ}
use opal.Env.{Bytes}
use opal.Storage.Bitcask.Data.{
  DataFileEntry, HintFileEntry, KeyDirEntry, u64_size, add_u64, sub_u64,
}
use opal.Storage.Bitcask.Crates.{Crates, IsLawful}
use opal.Storage.Bitcask.Stats.{Stats, at_entry}
use opal.Storage.Bitcask.Store.{counted, overwritten}
use opal.Storage.Bitcask.Store.Append.{Bytes-discrete, written}
use opal.Storage.Bitcask.Recovery.{entry, eof, Streams, Rebuilt, loaded, on_entry, data_loop}

-- The documented behaviour of bincode on a reader, and of new maps and caches.
pub record IsStream (x : Crates) (st : Streams x) : Type 0 where
  pub data_from-serialize :
      (d : DataFileEntry) (rest : Bytes)
      → st.data_from (x.serialize d ++ rest) ≡ entry d (length (x.serialize d))
  pub data_from-nil : st.data_from [] ≡ eof
  pub data_from_takes :
      (bs : Bytes) (d : DataFileEntry) (n : ℕ)
      → st.data_from bs ≡ entry d n
      → (0 < n) × (n ≤ length bs)
  pub hint_from_takes :
      (bs : Bytes) (h : HintFileEntry) (n : ℕ)
      → st.hint_from bs ≡ entry h n
      → (0 < n) × (n ≤ length bs)
  pub length-serialize : (d : DataFileEntry) → 0 < length (x.serialize d)
  pub deserialize-nil : x.deserialize [] ≡ none
  pub get-empty_keydir : (k : Bytes) → x.get st.empty_keydir k ≡ none
  pub peek-empty_cache : (i : ℕ) → x.peek st.empty_cache i ≡ none

-- A key directory as a function, and the statistics.
pub record Index : Type 0 where
  pub entries : Bytes → Option KeyDirEntry
  pub stats : Stats

abbrev pub blank : Index
blank = record { entries = λ k. none; stats = [] }

abbrev pub assign_entry :
    Bytes → Option KeyDirEntry → (Bytes → Option KeyDirEntry) → Bytes → Option KeyDirEntry
assign_entry key o m j = elim (Bytes-discrete key j) [ yes _ ↦ o | no _ ↦ m j ]

module _ (x : Crates) where
  abbrev pub size : DataFileEntry → ℕ
  size d = length (x.serialize d)

  abbrev pub serialize_all : List DataFileEntry → Bytes
  serialize_all [] = []
  serialize_all (d ∷ ds) = x.serialize d ++ serialize_all ds

  -- The entry of the key directory for a record at this place; a tombstone has none.
  abbrev pub located : ℕ → ℕ → DataFileEntry → Option Bytes → Option KeyDirEntry
  located i p d none = none
  located i p d (some _) = some (record { fileid = i; len = size d; pos = p; tstamp = d.tstamp })

  abbrev pub place : ℕ → ℕ → DataFileEntry → Index → Index
  place i p d m = record {
    entries = assign_entry d.key (located i p d d.value) m.entries;
    stats = overwritten (m.entries d.key) (at_entry i (counted d.value (size d)) m.stats);
  }

  unfoldable pub replay : ℕ → ℕ → List DataFileEntry → Index → Index
  replay i p [] m = m
  replay i p (d ∷ ds) m = replay i (p + size d) ds (place i p d m)

  -- Files with their entries, the oldest first.
  abbrev pub History : Type 0
  History = List (ℕ × List DataFileEntry)

  unfoldable pub replay_all : History → Index → Index
  unfolding replay
  replay_all [] m = m
  replay_all ((i, ds) ∷ h) m = replay_all h (replay i 0 ds m)

  -- The maps that recovery has filled are those of the index.
  pub record Matches (r : Rebuilt x) (m : Index) : Type 0 where
    pub entries : (k : Bytes) → x.get r.keydir k ≡ m.entries k
    pub stats : r.stats ≡ m.stats

module _ (x : Crates) (laws : IsLawful x) (st : Streams x) (io_laws : IsStream x st) where
  pub get-insert-assign :
      (m : x.KeyDir) (n : Bytes → Option KeyDirEntry) (k : Bytes) (e : KeyDirEntry)
      → ((j : Bytes) → x.get m j ≡ n j)
      → (j : Bytes) → x.get (x.insert m k e) j ≡ assign_entry k (some e) n j
  get-insert-assign m n k e h j =
      elim (Bytes-discrete k j)
        as (λ d. x.get (x.insert m k e) j ≡ elim d [ yes _ ↦ some e | no _ ↦ n j ]) [
          | yes same ↦
              subst (λ i. x.get (x.insert m k e) i ≡ some e) same (laws.get-insert_self m k e)
          | no other ↦ laws.get-insert_ne m k j e other ∙ h j
        ]

  pub get-remove-assign :
      (m : x.KeyDir) (n : Bytes → Option KeyDirEntry) (k : Bytes)
      → ((j : Bytes) → x.get m j ≡ n j)
      → (j : Bytes) → x.get (x.remove m k) j ≡ assign_entry k none n j
  get-remove-assign m n k h j =
      elim (Bytes-discrete k j)
        as (λ d. x.get (x.remove m k) j ≡ elim d [ yes _ ↦ none | no _ ↦ n j ]) [
          | yes same ↦ subst (λ i. x.get (x.remove m k) i ≡ none) same (laws.get-remove_self m k)
          | no other ↦ laws.get-remove_ne m k j other ∙ h j
        ]

  on_value-Matches :
      (i p : ℕ) (t : ℤ) (k : Bytes) (value : Option Bytes) (r : Rebuilt x) (m : Index)
      → Matches x r m
      → Matches x
          (on_entry i (record { len = size x (written t k value); pos = p }) (written t k value) r)
          (place x i p (written t k value) m)
  on_value-Matches i p t k none r m h = record {
    entries = get-remove-assign r.keydir m.entries k h.entries;
    stats = rw (h.entries k) (rw h.stats refl);
  }
  on_value-Matches i p t k (some v) r m h = record {
    entries = get-insert-assign r.keydir m.entries k _ h.entries;
    stats = rw (h.entries k) (rw h.stats refl);
  }

  on_entry-Matches :
      (i p n : ℕ) (d : DataFileEntry) (r : Rebuilt x) (m : Index)
      → n ≡ size x d
      → Matches x r m
      → Matches x (on_entry i (record { len = n; pos = p }) d r) (place x i p d m)
  on_entry-Matches i p n d r m e h = rw e (on_value-Matches i p d.tstamp d.key d.value r m h)

  pub length-serialize_all : (ds : List DataFileEntry) → length ds ≤ length (serialize_all x ds)
  length-serialize_all [] = omega arith
  length-serialize_all (d ∷ ds) = omega (
    arith,
    length-serialize_all ds,
    io_laws.length-serialize d,
    length-append (x.serialize d) (serialize_all x ds),
  )

  -- One round.
  data_loop-entry :
      (fuel : ℕ) (bs rest : Bytes) (pos pos' n i : ℕ) (r : Rebuilt x) (d : DataFileEntry)
      → st.data_from bs ≡ entry d n
      → drop n bs ≡ rest
      → add_u64 pos n ≡ pos'
      → data_loop st (suc fuel) bs pos i r
        ≡ data_loop st fuel rest pos' i
            (on_entry i (record { len = sub_u64 (add_u64 pos n) pos; pos = pos }) d r)
  unfolding data_loop
  data_loop-entry fuel bs rest pos pos' n i r d e f g =
      rw (e, data_loop)
        (ap
            (λ z.
              data_loop st fuel z (add_u64 pos n) i
                (on_entry i (record { len = sub_u64 (add_u64 pos n) pos; pos = pos }) d r))
            f
          ∙ ap
              (λ z.
                data_loop st fuel rest z i
                  (on_entry i (record { len = sub_u64 (add_u64 pos n) pos; pos = pos }) d r))
              g)

  -- The loop over a file with these entries and a torn one behind.
  pub data_loop-replay :
      (ds : List DataFileEntry) (tail : Bytes) (fuel pos i : ℕ) (r : Rebuilt x) (m : Index)
      → st.data_from tail ≡ eof
      → length ds < fuel
      → pos + length (serialize_all x ds) < u64_size
      → Matches x r m
      → (r' : Rebuilt x) × (data_loop st fuel (serialize_all x ds ++ tail) pos i r ≡ loaded r')
        × Matches x r' (replay x i pos ds m)
  unfolding data_loop replay
  data_loop-replay ds tail zero pos i r m e f b h = absurd (omega arith)
  data_loop-replay [] tail (suc fuel) pos i r m e f b h = (r, rw (e, data_loop) refl, h)
  data_loop-replay (d ∷ ds) tail (suc fuel) pos i r m e f b h =
      let n = size x d in
      let rest = serialize_all x ds ++ tail in
      let l = length-append (x.serialize d) (serialize_all x ds) in
      let at : add_u64 pos n ≡ pos + n = omega (arith, l) in
      let len : sub_u64 (add_u64 pos n) pos ≡ n = omega (arith, l) in
      let r1 = on_entry i (record { len = sub_u64 (add_u64 pos n) pos; pos = pos }) d r in
      let q = on_entry-Matches i pos (sub_u64 (add_u64 pos n) pos) d r m len h in
      let (r', eq, g) =
        data_loop-replay ds tail fuel (pos + n) i r1 (place x i pos d m) e (omega arith)
          (omega (arith, l)) q in
      let whole = append_assoc (x.serialize d) (serialize_all x ds) tail in
      let first = ap st.data_from whole ∙ io_laws.data_from-serialize d rest in
      let left = ap (drop n) whole ∙ drop-length (x.serialize d) rest in
      (r', data_loop-entry fuel _ rest pos (pos + n) n i r d first left at ∙ eq, g)
