-- ===== src/Storage/Bitcask/Recovery/Kept.antt =====
-- `put`, `delete` and `get` on a store with a history: the record that they write is one more entry of it.
use opal.Prelude.{
  ℕ, suc, ◌<◌, ◌≡◌, ◌⊎◌, inl, inr, refl, sym, ap, ◌∙◌, subst, Bool, true, false, Option, none, some,
  List, [], ◌∷◌, ◌++◌, append-nil, length, arith,
}
use opal.Prelude.Int.{ℤ}
use opal.Env.{Bytes}
use opal.Storage.Bitcask.Data.{DataFileEntry, KeyDirEntry, u64_size}
use opal.Storage.Bitcask.Crates.{Crates, IsLawful}
use opal.Storage.Bitcask.Files.{
  Files, data_of, created, data_of-created, exists_in-created, hint_in-created,
}
use opal.Storage.Bitcask.Stats.{at_entry}
use opal.Storage.Bitcask.Log.{new_writer}
use opal.Storage.Bitcask.Store.{Store, ok, appended, counted, overwritten, put, delete, keydir_set}
use opal.Storage.Bitcask.Store.Located.{IsValid}
use opal.Storage.Bitcask.Store.Append.{Fits, written, after, after-IsValid, entry, entry_place}
use opal.Storage.Bitcask.Store.Switch.{renewed, write-Wrote}
use opal.Storage.Bitcask.Store.Put.{writer_put-Wrote, writer_delete-Wrote}
use opal.Storage.Bitcask.Recovery.{Streams}
use opal.Storage.Bitcask.Recovery.Replay.{
  IsStream, Index, blank, History, size, serialize_all, place, located, assign_entry, replay,
  replay_all, Matches, get-insert-assign, get-remove-assign,
}
use opal.Storage.Bitcask.Recovery.Fileids.{member, IsAscending-append, member-append}
use opal.Storage.Bitcask.Recovery.Rebuild.{ids, IsFile, AllFiles}
use opal.Storage.Bitcask.Recovery.Logged.{
  ids-append, replay_all-append, whole, IsLogged, AllFiles-keeps, older-lt, append-IsLogged,
}

module _ (x : Crates) (st : Streams x) where
  pub AllFiles-append :
      (fs : Files) (h : History x) (i : ℕ) (ds : List DataFileEntry)
      → AllFiles x st fs h
      → IsFile x st fs i ds
      → AllFiles x st fs (h ++ (i, ds) ∷ [])
  AllFiles-append fs [] i ds a f = (f, tt)
  AllFiles-append fs (g ∷ h) i ds a f = (a.0, AllFiles-append fs h i ds a.1 f)

  module _ (io_laws : IsStream x st) (s : Store x) (older : History x) (ds : List DataFileEntry)
      (g : IsLogged x st s older ds)
      (small : length (data_of s.files s.active_fileid) < u64_size) where
    old_active : IsFile x st s.files s.active_fileid ds
    old_active = record {
      present =
          g.complete s.active_fileid
          ∙ ap (member s.active_fileid) (ids-append older ((s.active_fileid, ds) ∷ []))
          ∙ ground (arith, member-append s.active_fileid (ids older) (s.active_fileid ∷ []));
      no_hint = g.no_hints s.active_fileid;
      written = ([], g.active ∙ sym (append-nil (serialize_all x ds)), io_laws.data_from-nil);
      small = small;
    }

    below : (i : ℕ) → member i (ids (whole x s older ds)) ≡ true → i < suc s.active_fileid
    below i m =
        let e =
          ap (member i) (ids-append older ((s.active_fileid, ds) ∷ []))
          ∙ member-append i (ids older) (s.active_fileid ∷ []) in
        ground (arith, m, e, older-lt x st s older ds g i)

    -- The switch to a new file closes the active one's history.
    renewed-IsLogged : IsLogged x st (renewed x s) (whole x s older ds) []
    unfolding new_writer replay
    renewed-IsLogged = record {
      ascending =
          rw (ids-append (whole x s older ds) ((suc s.active_fileid, []) ∷ []))
            (IsAscending-append (ids (whole x s older ds)) (suc s.active_fileid) g.ascending below);
      files =
          AllFiles-keeps x st s.files (created s.files (suc s.active_fileid)) (whole x s older ds)
            (λ i m. ground (arith, data_of-created s.files (suc s.active_fileid) i, below i m))
            (λ i m. ground (arith, exists_in-created s.files (suc s.active_fileid) i, below i m))
            (λ i. hint_in-created s.files (suc s.active_fileid) i)
            (AllFiles-append s.files older s.active_fileid ds g.files old_active);
      active = ground (arith, data_of-created s.files (suc s.active_fileid) (suc s.active_fileid));
      complete = λ i.
          let e =
            ap (member i) (ids-append (whole x s older ds) ((suc s.active_fileid, []) ∷ []))
            ∙ member-append i (ids (whole x s older ds)) (suc s.active_fileid ∷ []) in
          ground (arith, e, exists_in-created s.files (suc s.active_fileid) i, g.complete i);
      no_hints = λ i. hint_in-created s.files (suc s.active_fileid) i ∙ g.no_hints i;
      counts = ground (arith, data_of-created s.files (suc s.active_fileid) (suc s.active_fileid));
      matches =
          subst (λ j. Matches x (record { keydir = s.keydir; stats = s.stats }) j)
            (sym (replay_all-append x (whole x s older ds) (suc s.active_fileid) [] blank))
            g.matches;
    }

-- A store whose files, when they are replayed, say what it has in memory.
abbrev pub IsDurable : (x : Crates) → Streams x → Store x → Type 0
IsDurable x st s = (older : History x) × (ds : List DataFileEntry) × IsLogged x st s older ds

module _ (x : Crates) (laws : IsLawful x) (st : Streams x) (io_laws : IsStream x st) (s : Store x)
    (v : IsValid x s) (older : History x) (ds : List DataFileEntry) (g : IsLogged x st s older ds)
    (now : ℤ) (key : Bytes) where
  abbrev here : Index
  here = replay_all x (whole x s older ds) blank

  module _ (value : Option Bytes) (fits : Fits x s (written now key value)) where
    abbrev t : Store x
    t = after x s now key value

    abbrev e : KeyDirEntry
    e = entry x s now key value

    place_eq : (e.pos ≡ length (serialize_all x ds)) × (e.len ≡ size x (written now key value))
    place_eq = let (p, q, r) = entry_place x s v now key value fits in (p ∙ ap length g.active, q)

    -- With the key directory changed as the record says, in the same file or behind a switch.
    changed-IsDurable :
        (m : x.KeyDir)
        → ((k : Bytes)
            → x.get m k
              ≡ (place x s.active_fileid
                    (length (serialize_all x ds))
                    (written now key value)
                    here).entries
                  k)
        → (u : Store x) → (u ≡ t) ⊎ (u ≡ renewed x t)
        → IsDurable x st (record u { keydir = m; stats = overwritten (x.get u.keydir key) u.stats })
    unfolding appended
    changed-IsDurable m h u shape =
        let q : t.stats
            ≡ at_entry s.active_fileid (counted value (size x (written now key value))) s.stats =
          ap (λ n. at_entry s.active_fileid (counted value n) s.stats) place_eq.1 in
        let same : Matches x
            (record { keydir = m; stats = overwritten (x.get t.keydir key) t.stats })
            (place x s.active_fileid (length (serialize_all x ds)) (written now key value) here) =
          record {
            entries = h;
            stats = rw q (rw (g.matches.entries key) (rw g.matches.stats refl));
          } in
        let logged =
          append-IsLogged x st s older ds g v now key value fits m
            (overwritten (x.get t.keydir key) t.stats) same in
        elim shape [
          | inl p ↦
              subst
                (λ z.
                  IsDurable x st
                    (record z { keydir = m; stats = overwritten (x.get z.keydir key) z.stats }))
                (sym p) (older, ds ++ written now key value ∷ [], logged)
          | inr p ↦
              subst
                (λ z.
                  IsDurable x st
                    (record z { keydir = m; stats = overwritten (x.get z.keydir key) z.stats }))
                (sym p)
                (
                  whole x t older (ds ++ written now key value ∷ []),
                  [],
                  renewed-IsLogged x st io_laws
                      (record t { keydir = m; stats = overwritten (x.get t.keydir key) t.stats })
                      older (ds ++ written now key value ∷ []) logged
                      ((after-IsValid x s v now key value fits).small s.active_fileid),
                )
        ]

  abbrev spot : ℕ
  spot = length (serialize_all x ds)

  module _ (open_store : s.closed ≡ false) where
    -- A put that succeeds leaves files that say what is in memory.
    pub put-IsDurable :
        (value : Bytes)
        → Fits x s (written now key (some value))
        → (t : Store x) → put now key value s ≡ ok tt t
        → IsDurable x st t
    unfolding keydir_set
    put-IsDurable value fits t h =
        let (u, w) = write-Wrote x laws s v now key (some value) fits in
        let e = entry x s now key (some value) in
        let (p, q) = place_eq (some value) fits in
        let same : some e
            ≡ located x s.active_fileid spot (written now key (some value)) (some value) =
          ap (λ n. some (record { fileid = s.active_fileid; len = n; pos = e.pos; tstamp = now })) q
          ∙ ap
              (λ n. some (record {
                fileid = s.active_fileid;
                len = size x (written now key (some value));
                pos = n;
                tstamp = now;
              }))
              p in
        let kept =
          changed-IsDurable (some value) fits (x.insert u.keydir key e)
            (λ k.
              ap (λ m. x.get (x.insert m key e) k) w.keys
              ∙ subst (λ o. x.get (x.insert s.keydir key e) k ≡ assign_entry key o here.entries k)
                  same
                  (get-insert-assign x laws st io_laws s.keydir here.entries key e g.matches.entries
                    k))
            u w.shape in
        subst (IsDurable x st) (cc (h, writer_put-Wrote x laws s v open_store now key value u e w))
          kept

    pub delete-IsDurable :
        Fits x s (written now key none)
        → (t : Store x) (b : Bool) → delete now key s ≡ ok b t
        → IsDurable x st t
    delete-IsDurable fits t b h =
        let (u, w) = write-Wrote x laws s v now key none fits in
        let e = entry x s now key none in
        let kept =
          changed-IsDurable none fits (x.remove u.keydir key)
            (λ k.
              ap (λ m. x.get (x.remove m key) k) w.keys
              ∙ get-remove-assign x laws st io_laws s.keydir here.entries key g.matches.entries k)
            u w.shape in
        subst (IsDurable x st) (cc (h, writer_delete-Wrote x laws s v open_store now key u e w))
          kept
