-- ===== src/Storage/Bitcask/Store/Switch.antt =====
-- The switch to a new file keeps the invariant; `write` as a whole.
use opal.Prelude.{
  suc, ◌+◌, ◌≤◌, ◌<◌, ◌≡◌, ◌⊎◌, inl, inr, refl, ap, ◌∙◌, Option, some, [], length, length-append,
  ◌==◌, if◌then◌else◌, arith, Bool-cases, ltb, ltb,
}
use opal.Env.{Bytes}
use opal.Storage.Bitcask.Data.{KeyDirEntry, u64_size, add_u64}
use opal.Storage.Bitcask.Crates.{Crates, IsLawful}
use opal.Storage.Bitcask.Files.{
  datafile_name, data_of, created, create-fresh, data_of-created, exists_in-created,
}
use opal.Prelude.Int.{ℤ}
use opal.Storage.Bitcask.Log.{new_writer}
use opal.Storage.Bitcask.Store.{Store, ok, appended, rotate, new_active_datafile, write}
use opal.Storage.Bitcask.Store.Growth.{
  Grows, Grows-created, record_at-Grows, IsRecord-Grows, Grows-trans,
}
use opal.Storage.Bitcask.Store.Located.{record_at, IsRecord, IsValid}
use opal.Storage.Bitcask.Store.Append.{
  AllBehind, sound-AllBehind, entries-Grows, sound-Grows, Fits, written, after, after-Grows,
  after-IsValid, active_data, entry, entry-inside, entry-record_at, entry-IsRecord,
}

-- The state behind a switch to a new file.
abbrev pub renewed : (x : Crates) → Store x → Store x
renewed x s =
    let id = suc s.active_fileid in
    let files = created s.files id in
    record s {
      files = files;
      active_fileid = id;
      writer = new_writer files (datafile_name id);
      written_bytes = 0;
    }

-- The switch to a new file, whether it happens or not.
module _ (x : Crates) (s : Store x) (v : IsValid x s) (next : s.active_fileid + 1 < u64_size) where
  abbrev switched : Store x
  switched = renewed x s

  switched-IsValid : IsValid x switched
  unfolding new_writer
  switched-IsValid = record {
    entries =
        entries-Grows x s v switched refl (omega arith) (Grows-created s.active_fileid s.files);
    writes_active = refl;
    active_exists =
        ground (arith, exists_in-created s.files (suc s.active_fileid) (suc s.active_fileid));
    at_end = refl;
    fresh = λ i h.
        ground (arith, exists_in-created s.files (suc s.active_fileid) i, v.fresh i (omega arith));
    small =
        λ i. ground (arith, ap length (data_of-created s.files (suc s.active_fileid) i), v.small i);
    sound =
        sound-Grows x s v switched refl (omega arith) (Grows-created s.active_fileid s.files)
          s.readers v.sound;
  }

  new_file : new_active_datafile (suc s.active_fileid) s ≡ ok tt switched
  unfolding new_active_datafile
  new_file = rw (
    create-fresh s.files (suc s.active_fileid) (v.fresh (suc s.active_fileid) (omega arith)),
    new_active_datafile,
  )

  rotate_lem : (rotate s ≡ ok tt s) ⊎ (rotate s ≡ ok tt switched)
  unfolding rotate
  rotate_lem = elim (Bool-cases (ltb s.conf.max_file_size s.written_bytes)) [
    | inl full ↦ inr (
        rw full
          (let e : add_u64 s.active_fileid 1 ≡ suc s.active_fileid = omega arith in rw e new_file))
    | inr fine ↦ inl (rw fine)
  ]

-- What `write` leaves for its caller.
pub record Wrote (x : Crates) (s t : Store x) (now : ℤ) (key : Bytes) (value : Option Bytes)
    (e : KeyDirEntry) : Type 0 where
  pub result : write now key value s ≡ ok e t
  pub shape : (t ≡ after x s now key value) ⊎ (t ≡ renewed x (after x s now key value))
  pub valid : IsValid x t
  pub keys : t.keydir ≡ s.keydir
  pub same_closed : t.closed ≡ s.closed
  pub same_readers : t.readers ≡ s.readers
  pub bounded :
      length (data_of t.files t.active_fileid)
      ≤ length (data_of s.files s.active_fileid) + length (x.serialize (written now key value))
  pub next : t.active_fileid ≤ suc s.active_fileid
  pub grows : Grows s.active_fileid s.files t.files
  pub record_of : record_at x t.files e ≡ some (written now key value)
  pub whole : (w : Bytes) → value ≡ some w → IsRecord x t.files key e
  pub behind : AllBehind x e.fileid e.pos t.readers

module _ (x : Crates) (laws : IsLawful x) (s : Store x) (v : IsValid x s) (now : ℤ) (key : Bytes)
    (value : Option Bytes) (fits : Fits x s (written now key value)) where
  abbrev t : Store x
  t = after x s now key value

  abbrev e : KeyDirEntry
  e = entry x s now key value

  t-IsValid : IsValid x t
  t-IsValid = after-IsValid x s v now key value fits

  t_bounded :
      length (data_of t.files t.active_fileid)
      ≤ length (data_of s.files s.active_fileid) + length (x.serialize (written now key value))
  unfolding appended
  t_bounded = omega (
    arith,
    ap length (active_data x s v now key value fits),
    length-append (data_of s.files s.active_fileid) (x.serialize (written now key value)),
  )

  new_empty :
      length (
        if suc t.active_fileid == suc t.active_fileid
        then []
        else data_of t.files (suc t.active_fileid))
      ≡ 0
  new_empty = ground arith

  write-result : (u : Store x) → rotate t ≡ ok tt u → write now key value s ≡ ok e u
  unfolding write
  write-result u h = rw h

  write-stays : rotate t ≡ ok tt t → Wrote x s t now key value e
  unfolding appended
  write-stays h = record {
    result = write-result t h;
    shape = inl refl;
    valid = t-IsValid;
    keys = refl;
    same_closed = refl;
    same_readers = refl;
    bounded = t_bounded;
    next = omega arith;
    grows = after-Grows x s v now key value fits;
    record_of = entry-record_at x s v now key value fits laws;
    whole = entry-IsRecord x s v now key value fits laws;
    behind = sound-AllBehind x s v s.readers v.sound;
  }

  next : t.active_fileid + 1 < u64_size
  unfolding appended
  next = fits.next_id

  abbrev u : Store x
  u = switched x t t-IsValid next

  t-Grows-u : Grows s.active_fileid t.files u.files
  unfolding appended
  t-Grows-u = Grows-created s.active_fileid t.files

  write-switches : rotate t ≡ ok tt u → Wrote x s u now key value e
  unfolding appended
  write-switches h = record {
    result = write-result u h;
    shape = inr refl;
    valid = switched-IsValid x t t-IsValid next;
    keys = refl;
    same_closed = refl;
    same_readers = refl;
    bounded = omega (
      arith,
      ap length (data_of-created t.files (suc t.active_fileid) (suc t.active_fileid)),
      new_empty,
    );
    next = omega arith;
    grows = Grows-trans (after-Grows x s v now key value fits) t-Grows-u;
    record_of =
        record_at-Grows x t-Grows-u e (omega arith) (entry-inside x s v now key value fits)
        ∙ entry-record_at x s v now key value fits laws;
    whole = λ w p.
        IsRecord-Grows x t-Grows-u key e (omega arith)
          (entry-IsRecord x s v now key value fits laws w p);
    behind = sound-AllBehind x s v s.readers v.sound;
  }

  pub write-Wrote : (t' : Store x) × Wrote x s t' now key value e
  write-Wrote = elim (rotate_lem x t t-IsValid next) [
    | inl h ↦ (t, write-stays h)
    | inr h ↦ (u, write-switches h)
  ]
