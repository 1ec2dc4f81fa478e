-- ===== src/Storage/Bitcask/Recovery/Reopen.antt =====
-- `Bitcask::open` on files that a store has left behind.
use opal.Prelude.{
  ℕ, zero, suc, ◌+◌, ◌≤◌, ◌<◌, ◌≡◌, inl, inr, refl, sym, ap, ◌∙◌, subst, true, false, none, some,
  List, [], ◌∷◌, ◌++◌, length, arith, Option-cases,
}
use opal.Env.{Bytes}
use opal.Storage.Bitcask.Data.{KeyDirEntry, Config, u64_size}
use opal.Storage.Bitcask.Crates.{Crates, IsLawful, LogReader}
use opal.Storage.Bitcask.Files.{
  Files, FileName, datafile_name, hintfile_name, data_of, exists_in, created, create-fresh,
  data_of-created, exists_in-created, hint_in-created,
}
use opal.Storage.Bitcask.Log.{new_writer}
use opal.Storage.Bitcask.Store.{Store}
use opal.Storage.Bitcask.Store.Located.{value_at, value_in, view, AllSound, IsValid}
use opal.Storage.Bitcask.Store.Growth.{record_at-append, IsRecord-append}
use opal.Storage.Bitcask.Recovery.{
  Streams, Rebuilt, opened, start, open_storage, caches, most_recent, next_fileid,
}
use opal.Storage.Bitcask.Recovery.Replay.{IsStream, blank, History, replay, replay_all, Matches}
use opal.Storage.Bitcask.Recovery.Fileids.{
  member, listed, IsAscending-append, member-append, most_recent-IsGreatest,
}
use opal.Storage.Bitcask.Recovery.Rebuild.{ids, IsDirectory, rebuild_storage-replay}
use opal.Storage.Bitcask.Recovery.Logged.{ids-append, replay_all-append, AllFiles-keeps}
use opal.Storage.Bitcask.Recovery.Kept.{IsDurable}

-- The id after the greatest one.
next_fileid-above :
    (is : List ℕ)
    → ((i : ℕ) → member i is ≡ true → i + 1 < u64_size)
    → (i : ℕ) → member i is ≡ true
    → i < next_fileid (most_recent none is)
next_fileid-above [] h i m = absurd (ground (arith, m))
next_fileid-above (j ∷ is) h i m =
    let (k, e, g) = most_recent-IsGreatest j is in
    let l = h k g.among in let le = g.above i m in rw e (omega (arith, l, le))

next_fileid-le :
    (is : List ℕ) (a : ℕ)
    → ((i : ℕ) → member i is ≡ true → i ≤ a)
    → ((i : ℕ) → member i is ≡ true → i + 1 < u64_size)
    → next_fileid (most_recent none is) ≤ suc a
unfolding most_recent
next_fileid-le [] a h b = omega arith
next_fileid-le (j ∷ is) a h b =
    let (k, e, g) = most_recent-IsGreatest j is in
    let l = h k g.among in let m = b k g.among in rw e (omega (arith, l, m))

module _ (x : Crates) (st : Streams x) where
  -- A directory whose files hold the history `h`, that say the same as the memory of `s`, and hold
  -- every record that its key directory points at.
  pub record IsLeftBy (s : Store x) (fs : Files) (names : List FileName) (h : History x)
      : Type 0 where
    pub directory : IsDirectory x st fs names h
    pub listing : (i : ℕ) → exists_in fs (datafile_name i) ≡ listed i names
    pub no_hints : (i : ℕ) → exists_in fs (hintfile_name i) ≡ false
    pub small : (i : ℕ) → length (data_of fs i) < u64_size
    pub old : (i : ℕ) → member i (ids h) ≡ true → i ≤ s.active_fileid
    pub bounded : (i : ℕ) → member i (ids h) ≡ true → i + 1 < u64_size
    pub matches : Matches x (record { keydir = s.keydir; stats = s.stats }) (replay_all x h blank)
    pub more : ℕ → Bytes
    pub grown : (i : ℕ) → data_of fs i ≡ data_of s.files i ++ more i
    pub kept :
        (k : Bytes) (e : KeyDirEntry) → x.get s.keydir k ≡ some e → member e.fileid (ids h) ≡ true

module _ (x : Crates) (st : Streams x) (io_laws : IsStream x st) (conf : Config) (concurrency : ℕ)
    (s : Store x) (v : IsValid x s) (fs : Files) (names : List FileName) (h : History x)
    (l : IsLeftBy x st s fs names h) where
  abbrev fileid : ℕ
  fileid = next_fileid (most_recent none (ids h))

  above : (i : ℕ) → member i (ids h) ≡ true → i < fileid
  above = next_fileid-above (ids h) l.bounded

  exists-member : (i : ℕ) → exists_in fs (datafile_name i) ≡ member i (ids h)
  exists-member i = l.listing i ∙ l.directory.complete i

  free : (i : ℕ) → fileid ≤ i → exists_in fs (datafile_name i) ≡ false
  free i p = ground (arith, exists-member i, above i)

  module _ (r : Rebuilt x) (g : Matches x r (replay_all x h blank)) where
    abbrev fresh_start : Store x
    fresh_start = record {
      files = created fs fileid;
      keydir = r.keydir;
      closed = false;
      conf = conf;
      writer = new_writer (created fs fileid) (datafile_name fileid);
      stats = r.stats;
      active_fileid = fileid;
      written_bytes = 0;
      readers = caches st concurrency;
    }

    start_lem : start st conf concurrency fs r fileid ≡ opened fresh_start
    unfolding start
    start_lem = rw (create-fresh fs fileid (free fileid (omega arith)), start) refl

    same_keys : (k : Bytes) → x.get r.keydir k ≡ x.get s.keydir k
    same_keys k = g.entries k ∙ sym (l.matches.entries k)

    moved :
        (k : Bytes) (e : KeyDirEntry)
        → x.get s.keydir k ≡ some e
        → data_of (created fs fileid) e.fileid ≡ data_of s.files e.fileid ++ l.more e.fileid
    moved k e p =
        ground (
          arith,
          data_of-created fs fileid e.fileid,
          above e.fileid (l.kept k e p),
          l.grown e.fileid,
        )

    same_view : (k : Bytes) → view x fresh_start k ≡ view x s k
    same_view k =
        ap (value_at x (created fs fileid)) (same_keys k) ∙ elim (Option-cases (x.get s.keydir k)) [
          | inl p ↦ rw p refl
          | inr (e, p) ↦ rw p (
              ap (value_in x) (
                record_at-append x s.files (created fs fileid) e (l.more e.fileid) (moved k e p)
                  (v.entries k e p).inside))
        ]

    unread : (n : ℕ) → AllSound x fresh_start (caches st n)
    unread zero = tt
    unread (suc n) = (
      record {
        within = λ i r p. absurd (none_ne (sym (io_laws.peek-empty_cache i) ∙ p));
        known = λ i r p. absurd (none_ne (sym (io_laws.peek-empty_cache i) ∙ p));
        clears = λ i r k e p q. absurd (none_ne (sym (io_laws.peek-empty_cache i) ∙ p));
      },
      unread n,
    )
      where
        none_ne : {r : LogReader} → none ≡ some r → ⊥
        none_ne h = ground arith

    start-IsValid : IsValid x fresh_start
    unfolding new_writer
    start-IsValid = record {
      entries = λ k e p.
          let p' : x.get s.keydir k ≡ some e = sym (same_keys k) ∙ p in
          IsRecord-append x s.files (created fs fileid) e (l.more e.fileid) (moved k e p') k
            (ground
              (arith, exists_in-created fs fileid e.fileid, exists-member e.fileid, l.kept k e p'))
            (v.entries k e p');
      writes_active = refl;
      active_exists = ground (arith, exists_in-created fs fileid fileid);
      at_end = refl;
      fresh = λ i p. ground (arith, exists_in-created fs fileid i, free i);
      small = λ i. ground (arith, ap length (data_of-created fs fileid i), l.small i);
      sound = unread concurrency;
    }

    fresh_empty : length (data_of fresh_start.files fresh_start.active_fileid) ≡ 0
    fresh_empty = ground (arith, ap length (data_of-created fs fileid fileid))

    start-IsDurable : IsDurable x st fresh_start
    unfolding replay
    start-IsDurable = (
      h,
      [],
      record {
        ascending =
            rw (ids-append h ((fileid, []) ∷ []))
              (IsAscending-append (ids h) fileid l.directory.ascending above);
        files =
            AllFiles-keeps x st fs (created fs fileid) h
              (λ i m. ground (arith, data_of-created fs fileid i, above i m))
              (λ i m. ground (arith, exists_in-created fs fileid i, above i m))
              (λ i. hint_in-created fs fileid i) l.directory.files;
        active = ground (arith, data_of-created fs fileid fileid);
        complete = λ i.
            let e =
              ap (member i) (ids-append h ((fileid, []) ∷ []))
              ∙ member-append i (ids h) (fileid ∷ []) in
            ground (arith, e, exists_in-created fs fileid i, exists-member i);
        no_hints = λ i. hint_in-created fs fileid i ∙ l.no_hints i;
        counts = ground (arith, data_of-created fs fileid fileid);
        matches =
            subst (λ j. Matches x (record { keydir = r.keydir; stats = r.stats }) j)
              (sym (replay_all-append x h fileid [] blank)) g;
      },
    )

-- What a storage is when it is open again: valid, open, with an empty active file and the readers asked for, and with the
-- statistics and the contents of the store that left the files.
pub record IsReopened (x : Crates) (st : Streams x) (s t : Store x) (conf : Config)
    (concurrency : ℕ) : Type 0 where
  pub valid : IsValid x t
  pub durable : IsDurable x st t
  pub active_empty : length (data_of t.files t.active_fileid) ≡ 0
  pub next_id : t.active_fileid ≤ suc s.active_fileid
  pub is_open : t.closed ≡ false
  pub readers : t.readers ≡ caches st concurrency
  pub config : t.conf ≡ conf
  pub stats : t.stats ≡ s.stats
  pub contents : (k : Bytes) → view x t k ≡ view x s k

module _ (x : Crates) (laws : IsLawful x) (st : Streams x) (io_laws : IsStream x st) (conf : Config)
    (concurrency : ℕ) (s : Store x) (v : IsValid x s) where
  pub open_storage-IsReopened :
      (fs : Files) (names : List FileName) (h : History x)
      → IsLeftBy x st s fs names h
      → (t : Store x) × (open_storage st conf concurrency fs names ≡ opened t)
        × IsReopened x st s t conf concurrency
  unfolding open_storage
  open_storage-IsReopened fs names h l =
      let (r, e, g) = rebuild_storage-replay x laws st io_laws fs names h l.directory in
      (
        fresh_start x st io_laws conf concurrency s v fs names h l r g,
        rw e (start_lem x st io_laws conf concurrency s v fs names h l r g),
        record {
          valid = start-IsValid x st io_laws conf concurrency s v fs names h l r g;
          durable = start-IsDurable x st io_laws conf concurrency s v fs names h l r g;
          active_empty = fresh_empty x st io_laws conf concurrency s v fs names h l r g;
          next_id = next_fileid-le (ids h) s.active_fileid l.old l.bounded;
          is_open = refl;
          readers = refl;
          config = refl;
          stats = g.stats ∙ sym l.matches.stats;
          contents = same_view x st io_laws conf concurrency s v fs names h l r g;
        },
      )
