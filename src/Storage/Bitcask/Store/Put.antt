-- ===== src/Storage/Bitcask/Store/Put.antt =====
-- `Handle::put` and `Handle::delete`: the state they leave holds what a map would hold.
use opal.Prelude.{suc, ◌+◌, ◌≤◌, ◌≡◌, ◌≢◌, refl, ap, ◌∙◌, false, Option, none, some, length}
use opal.Prelude.Int.{ℤ}
use opal.Env.{Bytes}
use opal.Storage.Bitcask.Data.{DataFileEntry, KeyDirEntry}
use opal.Storage.Bitcask.Files.{data_of}
use opal.Storage.Bitcask.Crates.{Crates, IsLawful}
use opal.Storage.Bitcask.Stats.{Stats}
use opal.Storage.Bitcask.Store.{
  Store, ok, keydir_set, writer_put, writer_delete, put, delete, overwritten, is_some,
}
use opal.Storage.Bitcask.Store.Located.{IsValid, view, value_at, value_in}
use opal.Storage.Bitcask.Store.Append.{Fits, written, entry}
use opal.Storage.Bitcask.Store.Switch.{Wrote, write-Wrote}
use opal.Storage.Bitcask.Store.Entry.{
  without_entry, with_entry-IsValid, without_entry-IsValid, value_at-Grows,
}

-- What a write of `d` leaves besides the keys: a valid state, open or closed as before, with the same
-- readers, an active file that has grown by no more than the record, and at most one more file id.
pub record Continues (x : Crates) (s t : Store x) (d : DataFileEntry) : Type 0 where
  pub valid : IsValid x t
  pub same_closed : t.closed ≡ s.closed
  pub same_readers : t.readers ≡ s.readers
  pub bounded :
      length (data_of t.files t.active_fileid)
      ≤ length (data_of s.files s.active_fileid) + length (x.serialize d)
  pub next : t.active_fileid ≤ suc s.active_fileid

module _ (x : Crates) (laws : IsLawful x) (s : Store x) (v : IsValid x s)
    (open_store : s.closed ≡ false) (now : ℤ) (key : Bytes) where
  pub writer_put-Wrote :
      (value : Bytes) (t : Store x) (e : KeyDirEntry)
      → Wrote x s t now key (some value) e
      → put now key value s ≡ ok tt (keydir_set key e t)
  unfolding put writer_put
  writer_put-Wrote value t e w = simp (w.result, open_store)

  changed-Continues :
      {value : Option Bytes} {e : KeyDirEntry} {t : Store x}
      → Wrote x s t now key value e
      → (m : x.KeyDir) (stats : Stats) → IsValid x (record t { keydir = m; stats = stats })
      → Continues x s (record t { keydir = m; stats = stats }) (written now key value)
  changed-Continues w m stats valid = record {
    valid = valid;
    same_closed = w.same_closed;
    same_readers = w.same_readers;
    bounded = w.bounded;
    next = w.next;
  }

  -- A put into an open store that satisfies the invariant, with room for the record and for one more
  -- file id, succeeds; its state satisfies the invariant again, is open, holds the value under the key
  -- and under every other key what it held before.
  pub put-stores :
      (value : Bytes)
      → Fits x s (written now key (some value))
      → (t : Store x) × (put now key value s ≡ ok tt t)
        × Continues x s t (written now key (some value))
        × (view x t key ≡ some value)
        × ((j : Bytes) → key ≢ j → view x t j ≡ view x s j)
  unfolding keydir_set
  put-stores value fits =
      let e = entry x s now key (some value) in
      let (t, w) = write-Wrote x laws s v now key (some value) fits in
      (
        keydir_set key e t,
        writer_put-Wrote value t e w,
        changed-Continues w (x.insert t.keydir key e) (overwritten (x.get t.keydir key) t.stats) (
            with_entry-IsValid x laws t w.valid key (overwritten (x.get t.keydir key) t.stats) e
              (w.whole value refl) w.behind),
        ap (value_at x t.files) (laws.get-insert_self t.keydir key e) ∙ ap (value_in x) w.record_of,
        λ j other.
            ap (value_at x t.files)
              (laws.get-insert_ne t.keydir key j e other ∙ ap (λ m. x.get m j) w.keys)
            ∙ value_at-Grows x s v t.files j w.grows,
      )

  abbrev pub deleted : Store x → Store x
  deleted t = without_entry x t key (overwritten (x.get t.keydir key) t.stats)

  pub writer_delete-Wrote :
      (t : Store x) (e : KeyDirEntry)
      → Wrote x s t now key none e
      → delete now key s ≡ ok (is_some (x.get t.keydir key)) (deleted t)
  unfolding delete writer_delete
  writer_delete-Wrote t e w = simp (w.result, open_store)

  -- A delete from an open store that satisfies the invariant, with room for the tombstone and for one
  -- more file id, succeeds and says whether the key directory had the key; its state satisfies the
  -- invariant again, is open, holds nothing under the key and under every other key what it held before.
  pub delete-removes :
      Fits x s (written now key none)
      → (t : Store x) × (delete now key s ≡ ok (is_some (x.get s.keydir key)) t)
        × Continues x s t (written now key none)
        × (view x t key ≡ none)
        × ((j : Bytes) → key ≢ j → view x t j ≡ view x s j)
  delete-removes fits =
      let e = entry x s now key none in
      let (t, w) = write-Wrote x laws s v now key none fits in
      (
        deleted t,
        writer_delete-Wrote t e w ∙ ap (λ m. ok (is_some (x.get m key)) (deleted t)) w.keys,
        changed-Continues w (x.remove t.keydir key) (overwritten (x.get t.keydir key) t.stats)
            (without_entry-IsValid x laws t w.valid key (overwritten (x.get t.keydir key) t.stats)),
        ap (value_at x t.files) (laws.get-remove_self t.keydir key),
        λ j other.
            ap (value_at x t.files)
              (laws.get-remove_ne t.keydir key j other ∙ ap (λ m. x.get m j) w.keys)
            ∙ value_at-Grows x s v t.files j w.grows,
      )
