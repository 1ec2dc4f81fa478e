-- ===== src/Storage/Bitcask/Recovery/Left.antt =====
-- What a store leaves in its directory when it goes away.
use opal.Prelude.{
  ℕ, ◌+◌, ◌<◌, ◌≡◌, ◌≢◌, refl, sym, ap, ◌∙◌, subst, true, false, ◌||◌, none, some, List, [], ◌∷◌,
  ◌++◌, append-nil, length, length-append, ◌==◌, if◌then◌else◌, arith, take, drop,
}
use opal.Env.{Bytes}
use opal.Storage.Bitcask.Data.{DataFileEntry, KeyDirEntry, u64_size}
use opal.Storage.Bitcask.Crates.{Crates, IsLawful}
use opal.Storage.Bitcask.Files.{
  Files, FileName, datafile_name, hintfile_name, data_of, exists_in, unlink, data_of-unlink,
  exists_in-unlink, hint_in-unlink,
}
use opal.Storage.Bitcask.Store.{Store}
use opal.Storage.Bitcask.Store.Located.{record_at, IsValid}
use opal.Storage.Bitcask.Recovery.{Streams, eof}
use opal.Storage.Bitcask.Recovery.Replay.{
  IsStream, blank, History, replay, replay_all, length-serialize_all, Matches,
}
use opal.Storage.Bitcask.Recovery.Fileids.{
  member, listed, IsAscending, member-append, IsAscending-init,
}
use opal.Storage.Bitcask.Recovery.Rebuild.{ids, IsFile}
use opal.Storage.Bitcask.Recovery.Logged.{
  ids-append, replay_all-append, whole, IsLogged, AllFiles-keeps, older-lt,
}
use opal.Storage.Bitcask.Recovery.Kept.{AllFiles-append}
use opal.Storage.Bitcask.Recovery.Reopen.{IsLeftBy}

-- The names are those of the directory.
abbrev pub Lists : Files → List FileName → Type 0
Lists fs names = (i : ℕ) → exists_in fs (datafile_name i) ≡ listed i names

module _ (x : Crates) (st : Streams x) (s : Store x) (v : IsValid x s)
    (next : s.active_fileid + 1 < u64_size) (older : History x) (ds : List DataFileEntry)
    (g : IsLogged x st s older ds) where
  member-whole :
      (i : ℕ)
      → member i (ids (whole x s older ds))
        ≡ (member i (ids older) || ((i == s.active_fileid) || false))
  member-whole i =
      ap (member i) (ids-append older ((s.active_fileid, ds) ∷ []))
      ∙ member-append i (ids older) (s.active_fileid ∷ [])

  older_lt : (i : ℕ) → member i (ids older) ≡ true → i < s.active_fileid
  older_lt = older-lt x st s older ds g

  kept_whole :
      (k : Bytes) (e : KeyDirEntry)
      → x.get s.keydir k ≡ some e
      → member e.fileid (ids (whole x s older ds)) ≡ true
  kept_whole k e p = sym (g.complete e.fileid) ∙ (v.entries k e p).present

  -- The files as they are, or with a torn record at the end of the active one.
  module _ (fs : Files) (tail : Bytes) (stop : st.data_from tail ≡ eof)
      (bytes : (i : ℕ)
        → data_of fs i ≡ (
            if s.active_fileid == i
            then data_of s.files s.active_fileid ++ tail
            else data_of s.files i))
      (names_same : (i : ℕ) → exists_in fs (datafile_name i) ≡ exists_in s.files (datafile_name i))
      (hints_same : (i : ℕ) → exists_in fs (hintfile_name i) ≡ exists_in s.files (hintfile_name i))
      (room : length (data_of s.files s.active_fileid) + length tail < u64_size) where
    small_whole : (i : ℕ) → length (data_of fs i) < u64_size
    small_whole i = ground (
      arith,
      ap length (bytes i),
      length-append (data_of s.files s.active_fileid) tail,
      room,
      v.small i,
    )

    active_whole : IsFile x st fs s.active_fileid ds
    active_whole = record {
      present = names_same s.active_fileid ∙ v.active_exists;
      no_hint = hints_same s.active_fileid ∙ g.no_hints s.active_fileid;
      written = (tail, ground (arith, bytes s.active_fileid, ap (λ bs. bs ++ tail) g.active), stop);
      small = small_whole s.active_fileid;
    }

    pub left_whole :
        (names : List FileName) → Lists fs names → IsLeftBy x st s fs names (whole x s older ds)
    left_whole names h = record {
      directory = record {
        ascending = g.ascending;
        files =
            AllFiles-append x st fs older s.active_fileid ds
              (AllFiles-keeps x st s.files fs older (λ i m. ground (arith, bytes i, older_lt i m))
                (λ i _. names_same i) hints_same g.files)
              active_whole;
        complete = λ i. sym (h i) ∙ names_same i ∙ g.complete i;
      };
      listing = h;
      no_hints = λ i. hints_same i ∙ g.no_hints i;
      small = small_whole;
      old = λ i m. ground (arith, m, member-whole i, older_lt i);
      bounded = λ i m. ground (arith, m, member-whole i, older_lt i, next);
      matches = g.matches;
      more = λ i. if s.active_fileid == i then tail else [];
      grown = λ i. ground (arith, bytes i, append-nil (data_of s.files i));
      kept = kept_whole;
    }

  -- An active file without bytes is gone.
  module _ (io_laws : IsStream x st) (laws : IsLawful x) (none_written : s.written_bytes ≡ 0) where
    empty_active : length (data_of s.files s.active_fileid) ≡ 0
    empty_active = sym g.counts ∙ none_written

    no_entries : ds ≡ []
    no_entries =
        nil_of ds (
          omega
            (arith, length-serialize_all x laws st io_laws ds, ap length g.active, empty_active))
      where
        nil_of : (ds : List DataFileEntry) → length ds ≡ 0 → ds ≡ []
        nil_of [] h = refl
        nil_of (d ∷ ds) h = absurd (omega (arith, h))

    same_replay : replay_all x older blank ≡ replay_all x (whole x s older ds) blank
    unfolding replay
    same_replay = rw no_entries (sym (replay_all-append x older s.active_fileid [] blank))

    not_active :
        (k : Bytes) (e : KeyDirEntry) → x.get s.keydir k ≡ some e → e.fileid ≢ s.active_fileid
    unfolding record_at
    not_active k e p same =
        let r = v.entries k e p in
        let (d, w, at, _, _) = r.holds in
        let z : e.len ≡ 0 =
          omega (arith, r.inside, ap (λ i. length (data_of s.files i)) same, empty_active) in
        let bad : none ≡ some d =
          sym io_laws.deserialize-nil
          ∙ sym (ap (λ n. x.deserialize (take n (drop e.pos (data_of s.files e.fileid)))) z)
          ∙ at in
        ground (arith, bad)

    abbrev fs : Files
    fs = unlink s.files (datafile_name s.active_fileid)

    pub left_older : (names : List FileName) → Lists fs names → IsLeftBy x st s fs names older
    left_older names h = record {
      directory = record {
        ascending =
            IsAscending-init (ids older) s.active_fileid
              (subst IsAscending (ids-append older ((s.active_fileid, ds) ∷ [])) g.ascending);
        files =
            AllFiles-keeps x st s.files fs older (λ i m. data_of-unlink s.files s.active_fileid i)
              (λ i m. ground (arith, exists_in-unlink s.files s.active_fileid i, older_lt i m))
              (λ i. hint_in-unlink s.files s.active_fileid i) g.files;
        complete = λ i.
            sym (h i)
            ∙ ground (
              arith,
              exists_in-unlink s.files s.active_fileid i,
              g.complete i,
              member-whole i,
              older_lt i,
            );
      };
      listing = h;
      no_hints = λ i. hint_in-unlink s.files s.active_fileid i ∙ g.no_hints i;
      small = λ i. rw (data_of-unlink s.files s.active_fileid i) (v.small i);
      old = λ i m. omega (arith, older_lt i m);
      bounded = λ i m. omega (arith, older_lt i m, next);
      matches =
          subst (λ m. Matches x (record { keydir = s.keydir; stats = s.stats }) m) (sym same_replay)
            g.matches;
      more = λ i. [];
      grown = λ i. data_of-unlink s.files s.active_fileid i ∙ sym (append-nil (data_of s.files i));
      kept = λ k e p. ground (arith, kept_whole k e p, member-whole e.fileid, not_active k e p);
    }
