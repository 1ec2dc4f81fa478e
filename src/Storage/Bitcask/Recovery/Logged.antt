-- ===== src/Storage/Bitcask/Recovery/Logged.antt =====
-- The history of a running store: what its files say when they are replayed is what it has in memory.
use opal.Prelude.{
  ℕ, ◌+◌, ◌<◌, ◌≡◌, refl, sym, ap, ◌∙◌, subst, true, false, Option, List, [], ◌∷◌, ◌++◌, append-nil,
  append_assoc, length, length-append, arith,
}
use opal.Prelude.Int.{ℤ}
use opal.Env.{Bytes}
use opal.Storage.Bitcask.Data.{DataFileEntry}
use opal.Storage.Bitcask.Crates.{Crates}
use opal.Storage.Bitcask.Files.{
  Files, datafile_name, hintfile_name, data_of, exists_in, exists_in-append, hint_in-append,
}
use opal.Storage.Bitcask.Stats.{Stats}
use opal.Storage.Bitcask.Store.{Store, appended}
use opal.Storage.Bitcask.Store.Located.{IsValid}
use opal.Storage.Bitcask.Store.Append.{Fits, written, after, entry_place, after_data, active_data}
use opal.Storage.Bitcask.Recovery.{Streams}
use opal.Storage.Bitcask.Recovery.Replay.{
  Index, blank, History, size, serialize_all, place, replay, replay_all, Matches,
}
use opal.Storage.Bitcask.Recovery.Fileids.{member, IsAscending, before_last}
use opal.Storage.Bitcask.Recovery.Rebuild.{ids, AllFiles}

pub ids-append : (h k : List (ℕ × List DataFileEntry)) → ids (h ++ k) ≡ ids h ++ ids k
ids-append [] k = refl
ids-append ((i, ds) ∷ h) k = ap (λ is. i ∷ is) (ids-append h k)

module _ (x : Crates) where
  serialize_all-append :
      (ds : List DataFileEntry) (d : DataFileEntry)
      → serialize_all x (ds ++ d ∷ []) ≡ serialize_all x ds ++ x.serialize d
  serialize_all-append [] d = append-nil (x.serialize d)
  serialize_all-append (c ∷ ds) d =
      ap (λ bs. x.serialize c ++ bs) (serialize_all-append ds d)
      ∙ sym (append_assoc (x.serialize c) (serialize_all x ds) (x.serialize d))

  replay-append :
      (i p : ℕ) (ds : List DataFileEntry) (d : DataFileEntry) (m : Index)
      → replay x i p (ds ++ d ∷ []) m
        ≡ place x i (p + length (serialize_all x ds)) d (replay x i p ds m)
  unfolding replay
  replay-append i p [] d m = let e : p + 0 ≡ p = omega arith in rw e refl
  replay-append i p (c ∷ ds) d m =
      let e : p + size x c + length (serialize_all x ds)
          ≡ p + length (x.serialize c ++ serialize_all x ds) =
        omega (arith, length-append (x.serialize c) (serialize_all x ds)) in
      replay-append i (p + size x c) ds d (place x i p c m)
      ∙ ap (λ q. place x i q d (replay x i (p + size x c) ds (place x i p c m))) e

  pub replay_all-append :
      (h : History x) (i : ℕ) (ds : List DataFileEntry) (m : Index)
      → replay_all x (h ++ (i, ds) ∷ []) m ≡ replay x i 0 ds (replay_all x h m)
  unfolding replay_all
  replay_all-append [] i ds m = refl
  replay_all-append ((j, es) ∷ h) i ds m = replay_all-append h i ds (replay x j 0 es m)

  abbrev pub whole : Store x → History x → List DataFileEntry → History x
  whole s older ds = older ++ (s.active_fileid, ds) ∷ []

module _ (x : Crates) (st : Streams x) where
  -- The older files hold their entries and perhaps a torn one each, the active one exactly the given
  -- ones; these are all files, and their replay is the key directory and the statistics.
  pub record IsLogged (s : Store x) (older : History x) (ds : List DataFileEntry) : Type 0 where
    pub ascending : IsAscending (ids (whole x s older ds))
    pub files : AllFiles x st s.files older
    pub active : data_of s.files s.active_fileid ≡ serialize_all x ds
    pub complete :
        (i : ℕ) → exists_in s.files (datafile_name i) ≡ member i (ids (whole x s older ds))
    pub no_hints : (i : ℕ) → exists_in s.files (hintfile_name i) ≡ false
    pub counts : s.written_bytes ≡ length (data_of s.files s.active_fileid)
    pub matches :
        Matches x
          (record { keydir = s.keydir; stats = s.stats })
          (replay_all x (whole x s older ds) blank)

  -- Files that keep the older ones as they were.
  pub AllFiles-keeps :
      (fs fs' : Files) (h : History x)
      → ((i : ℕ) → member i (ids h) ≡ true → data_of fs' i ≡ data_of fs i)
      → ((i : ℕ)
          → member i (ids h) ≡ true
          → exists_in fs' (datafile_name i) ≡ exists_in fs (datafile_name i))
      → ((i : ℕ) → exists_in fs' (hintfile_name i) ≡ exists_in fs (hintfile_name i))
      → AllFiles x st fs h
      → AllFiles x st fs' h
  AllFiles-keeps fs fs' [] d e n a = tt
  AllFiles-keeps fs fs' ((i, ds) ∷ h) d e n a =
      let here : member i (i ∷ ids h) ≡ true = ground arith in
      let (tail, w, stop) = a.0.written in
      (
        record {
          present = e i here ∙ a.0.present;
          no_hint = n i ∙ a.0.no_hint;
          written = (tail, d i here ∙ w, stop);
          small = rw (d i here) a.0.small;
        },
        AllFiles-keeps fs fs' h (λ j m. d j (ground (arith, m))) (λ j m. e j (ground (arith, m))) n
            a.1,
      )

  module _ (s : Store x) (older : History x) (ds : List DataFileEntry)
      (g : IsLogged s older ds) where
    pub older-lt : (i : ℕ) → member i (ids older) ≡ true → i < s.active_fileid
    older-lt i m =
        before_last (ids older) s.active_fileid i
          (subst (λ is. IsAscending is) (ids-append older ((s.active_fileid, ds) ∷ [])) g.ascending)
          m

    module _ (v : IsValid x s) (now : ℤ) (key : Bytes) (value : Option Bytes)
        (fits : Fits x s (written now key value)) where
      abbrev d : DataFileEntry
      d = written now key value

      abbrev t : Store x
      t = after x s now key value

      ids_same :
          ids (older ++ (s.active_fileid, ds ++ d ∷ []) ∷ [])
          ≡ ids (older ++ (s.active_fileid, ds) ∷ [])
      ids_same = ids-append older _ ∙ sym (ids-append older _)

      other_data : (i : ℕ) → member i (ids older) ≡ true → data_of t.files i ≡ data_of s.files i
      other_data i m = ground (arith, older-lt i m, after_data x s v now key value fits i)

      counts_lem : t.written_bytes ≡ length (data_of t.files s.active_fileid)
      unfolding appended
      counts_lem =
          let (p, q, r) = entry_place x s v now key value fits in
          omega (
            arith,
            q,
            g.counts,
            fits.room,
            ap length r,
            length-append (data_of s.files s.active_fileid) (x.serialize d),
          )

      replay_lem :
          place x s.active_fileid
            (length (serialize_all x ds))
            d
            (replay_all x (whole x s older ds) blank)
          ≡ replay_all x (older ++ (s.active_fileid, ds ++ d ∷ []) ∷ []) blank
      replay_lem =
          let z : 0 + length (serialize_all x ds) ≡ length (serialize_all x ds) = omega arith in
          ap (place x s.active_fileid (length (serialize_all x ds)) d)
            (replay_all-append x older s.active_fileid ds blank)
          ∙ ap
              (λ p.
                place x s.active_fileid p d
                  (replay x s.active_fileid 0 ds (replay_all x older blank)))
              (sym z)
          ∙ sym (replay-append x s.active_fileid 0 ds d (replay_all x older blank))
          ∙ sym (replay_all-append x older s.active_fileid (ds ++ d ∷ []) blank)

      -- The append, with a key directory and statistics that the new entry was placed in.
      pub append-IsLogged :
          (m : x.KeyDir) (q : Stats)
          → Matches x
              (record { keydir = m; stats = q })
              (place x s.active_fileid
                (length (serialize_all x ds))
                d
                (replay_all x (whole x s older ds) blank))
          → IsLogged (record t { keydir = m; stats = q }) older (ds ++ d ∷ [])
      unfolding appended
      append-IsLogged m q h = record {
        ascending = rw ids_same g.ascending;
        files =
            AllFiles-keeps s.files t.files older other_data
              (λ i _.
                exists_in-append s.files s.writer.file s.active_fileid i (x.serialize d)
                  v.writes_active)
              (λ i.
                hint_in-append s.files s.active_fileid i s.writer.file (x.serialize d)
                  v.writes_active)
              g.files;
        active =
            active_data x s v now key value fits
            ∙ ap (λ bs. bs ++ x.serialize d) g.active
            ∙ sym (serialize_all-append x ds d);
        complete = λ i.
            exists_in-append s.files s.writer.file s.active_fileid i (x.serialize d) v.writes_active
            ∙ g.complete i
            ∙ ap (member i) (sym ids_same);
        no_hints = λ i.
            hint_in-append s.files s.active_fileid i s.writer.file (x.serialize d) v.writes_active
            ∙ g.no_hints i;
        counts = counts_lem;
        matches = subst (λ i. Matches x (record { keydir = m; stats = q }) i) replay_lem h;
      }
