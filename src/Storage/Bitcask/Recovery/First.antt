-- ===== src/Storage/Bitcask/Recovery/First.antt =====
-- The first `Bitcask::open`, on a directory without files, and the life of a storage from there.
use opal.Prelude.{
  ℕ, suc, ◌+◌, ◌<◌, ◌≡◌, refl, sym, ap, ◌∙◌, subst, false, none, some, List, [], ◌++◌, length,
  arith,
}
use opal.Env.{Bytes}
use opal.Storage.Bitcask.Data.{KeyDirEntry, Config, u64_size}
use opal.Storage.Bitcask.Crates.{Crates, IsLawful}
use opal.Storage.Bitcask.Files.{
  Files, FileName, datafile_name, hintfile_name, data_of, exists_in, created, data_of-created,
  exists_in-created,
}
use opal.Storage.Bitcask.Store.{Store, ok}
use opal.Storage.Bitcask.Store.Located.{value_at, view, IsValid}
use opal.Storage.Bitcask.Store.Session.{Call, Reply, expect_all, call_all, costs, IsReady}
use opal.Storage.Bitcask.Recovery.{Streams, opened, open_storage, drop_writer, caches}
use opal.Storage.Bitcask.Recovery.Replay.{IsStream, replay_all}
use opal.Storage.Bitcask.Recovery.Fileids.{listed}
use opal.Storage.Bitcask.Recovery.Kept.{IsDurable}
use opal.Storage.Bitcask.Recovery.Reopen.{IsLeftBy, IsReopened, open_storage-IsReopened}
use opal.Storage.Bitcask.Recovery.Left.{Lists}
use opal.Storage.Bitcask.Recovery.Survive.{call_all-open_storage}

-- A directory without data files and hint files.
pub record IsEmpty (fs : Files) (names : List FileName) : Type 0 where
  pub no_data : (i : ℕ) → exists_in fs (datafile_name i) ≡ false
  pub no_hints : (i : ℕ) → exists_in fs (hintfile_name i) ≡ false
  pub none_listed : (i : ℕ) → listed i names ≡ false
  pub small : (i : ℕ) → length (data_of fs i) < u64_size

module _ (x : Crates) (st : Streams x) (io_laws : IsStream x st) (conf : Config) where
  abbrev nowhere : Files
  nowhere name = none

  -- A store that holds nothing.
  abbrev void : Store x
  void = record {
    files = created nowhere 0;
    keydir = st.empty_keydir;
    closed = false;
    conf = conf;
    writer = record { file = datafile_name 0; pos = 0 };
    stats = [];
    active_fileid = 0;
    written_bytes = 0;
    readers = [];
  }

  void_data : (i : ℕ) → data_of (created nowhere 0) i ≡ []
  void_data i = ground (arith, data_of-created nowhere 0 i)

  no_entry : (k : Bytes) (e : KeyDirEntry) → x.get st.empty_keydir k ≡ some e → ⊥
  no_entry k e h = let z : none ≡ some e = sym (io_laws.get-empty_keydir k) ∙ h in ground (arith, z)

  void-IsValid : IsValid x void
  void-IsValid = record {
    entries = λ k e h. absurd (no_entry k e h);
    writes_active = refl;
    active_exists = exists_in-created nowhere 0 0;
    at_end = sym (ap length (void_data 0));
    fresh = λ i h. ground (arith, exists_in-created nowhere 0 i);
    small = λ i. omega (arith, ap length (void_data i));
    sound = tt;
  }

  void-IsLeftBy :
      (fs : Files) (names : List FileName) → IsEmpty fs names → IsLeftBy x st void fs names []
  unfolding replay_all
  void-IsLeftBy fs names e = record {
    directory = record { ascending = tt; files = tt; complete = e.none_listed };
    listing = λ i. e.no_data i ∙ sym (e.none_listed i);
    no_hints = e.no_hints;
    small = e.small;
    old = λ i m. absurd (ground (arith, m));
    bounded = λ i m. absurd (ground (arith, m));
    matches = record { entries = io_laws.get-empty_keydir; stats = refl };
    more = data_of fs;
    grown = λ i. ap (λ bs. bs ++ data_of fs i) (sym (void_data i));
    kept = λ k e h. absurd (no_entry k e h);
  }

module _ (x : Crates) (laws : IsLawful x) (st : Streams x) (io_laws : IsStream x st) (conf : Config)
    (concurrency : ℕ) (fs : Files) (names : List FileName) (empty : IsEmpty fs names) where
  -- The storage is open and empty, and it is ready for calls as far as numbers reach.
  open_storage-IsReady :
      (n b : ℕ)
      → n + 1 < u64_size
      → b < u64_size
      → (s : Store x) × (open_storage st conf (suc concurrency) fs names ≡ opened s)
        × IsReady x s n b
        × IsDurable x st s
        × ((k : Bytes) → view x s k ≡ none)
  open_storage-IsReady n b p q =
      let (s, e, r) =
        open_storage-IsReopened x laws st io_laws conf (suc concurrency) (void x st io_laws conf)
          (void-IsValid x st io_laws conf) fs names []
          (void-IsLeftBy x st io_laws conf fs names empty) in
      (
        s,
        e,
        record {
          valid = r.valid;
          is_open = r.is_open;
          reader = (st.empty_cache, caches st concurrency, r.readers);
          room = omega (arith, r.active_empty, q);
          ids = omega (arith, r.next_id, p);
        },
        r.durable,
        λ k. r.contents k ∙ ap (value_at x _) (io_laws.get-empty_keydir k),
      )

  -- The life of a storage: it is opened on a directory without files, puts, deletes and gets run through its
  -- handle, its writer goes, and the directory is opened again. Then the calls have got the replies of an
  -- empty map from keys to values, and the storage is valid and open, with at least one reader, and holds
  -- under every key what the map has in the end.
  pub open_storage-call_all-open_storage :
      (cs : List Call) (s t : Store x) (rs : List Reply) (left : List FileName)
      → length cs + 2 < u64_size
      → costs x cs < u64_size
      → open_storage st conf (suc concurrency) fs names ≡ opened s
      → call_all x cs s ≡ ok rs t
      → Lists (drop_writer t) left
      → (rs ≡ (expect_all cs (λ k. none)).0)
        × (u : Store x) × (open_storage st conf (suc concurrency) (drop_writer t) left ≡ opened u)
        × IsReopened x st t u conf (suc concurrency)
        × ((k : Bytes) → view x u k ≡ (expect_all cs (λ k. none)).1 k)
  open_storage-call_all-open_storage cs s t rs left p q h run l =
      let (s', e, r, d, v) =
        open_storage-IsReady (length cs + 1) (costs x cs + 0) (omega (arith, p))
          (omega (arith, q)) in
      let same : s' ≡ s = cc (e, h) in
      call_all-open_storage x laws st io_laws conf (suc concurrency) cs s t (λ k. none) rs left
        (subst (λ z. IsReady x z (length cs + 1) (costs x cs + 0)) same r)
        (subst (IsDurable x st) same d) (subst (λ z. (k : Bytes) → view x z k ≡ none) same v) run l
