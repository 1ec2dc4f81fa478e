-- ===== src/Storage/Bitcask/Files.antt =====
-- The files of the storage directory: `std::fs` as log.rs, utils.rs and writer.rs use it. A name that
-- was removed keeps its bytes for those who have it open. Only the name of an empty active file, which
-- is removed when the writer goes, is created again, when the directory is opened the next time.
use opal.Prelude.{
  ℕ, ◌≡◌, refl, Bool, true, false, Option, none, some, [], ◌++◌, ◌==◌, Bool-cases, inl, inr,
  if◌then◌else◌, arith,
}
use opal.Env.{Bytes}

-- `utils::datafile_name` and `utils::hintfile_name`, in the storage directory.
pub data FileName : Type 0 where
  datafile_name : ℕ → FileName
  hintfile_name : ℕ → FileName

abbrev pub same_name : FileName → FileName → Bool
same_name (datafile_name i) (datafile_name j) = i == j
same_name (hintfile_name i) (hintfile_name j) = i == j
same_name _ _ = false

pub record File : Type 0 where
  pub bytes : Bytes
  pub linked : Bool

abbrev pub Files : Type 0
Files = FileName → Option File

-- The bytes behind an open handle.
abbrev pub bytes_of : Option File → Bytes
bytes_of none = []
bytes_of (some f) = f.bytes

abbrev pub is_linked : Option File → Bool
is_linked none = false
is_linked (some f) = f.linked

abbrev pub exists_in : Files → FileName → Bool
exists_in fs n = is_linked (fs n)

abbrev pub with_file : Files → FileName → File → Files
with_file fs n f m = if same_name n m then some f else fs m

-- `OpenOptions::create_new`
unfoldable pub create : Files → FileName → Option Files
create fs n =
    if exists_in fs n then none else some (with_file fs n (record { bytes = []; linked = true }))

unfoldable pub append : Files → FileName → Bytes → Files
append fs n bs = elim (fs n) [
  | none ↦ fs
  | some f ↦ with_file fs n (record f { bytes = f.bytes ++ bs })
]

-- `fs::remove_file`; one that is not there stays so.
unfoldable pub unlink : Files → FileName → Files
unlink fs n = elim (fs n) [ none ↦ fs | some f ↦ with_file fs n (record f { linked = false }) ]

-- The bytes of the data file with this id.
abbrev pub data_of : Files → ℕ → Bytes
data_of fs i = bytes_of (fs (datafile_name i))

module _ (fs : Files) (f : FileName) (a i : ℕ) (bs : Bytes) (e : f ≡ datafile_name a) where
  pub data_of-append :
      exists_in fs (datafile_name a) ≡ true
      → data_of (append fs f bs) i ≡ (if a == i then data_of fs a ++ bs else data_of fs i)
  unfolding append
  data_of-append h = rw e (ground arith)

  pub exists_in-append :
      exists_in (append fs f bs) (datafile_name i) ≡ exists_in fs (datafile_name i)
  unfolding append
  exists_in-append = rw e (ground arith)

-- What a successful `create` leaves.
unfoldable pub created : Files → ℕ → Files
created fs a = with_file fs (datafile_name a) (record { bytes = []; linked = true })

pub create-fresh :
    (fs : Files) (a : ℕ)
    → exists_in fs (datafile_name a) ≡ false
    → create fs (datafile_name a) ≡ some (created fs a)
unfolding create created
create-fresh fs a h = rw h

pub data_of-created :
    (fs : Files) (a i : ℕ) → data_of (created fs a) i ≡ (if a == i then [] else data_of fs i)
unfolding created
data_of-created fs a i = elim (Bool-cases (a == i)) [ inl e ↦ rw e refl | inr e ↦ rw e refl ]

pub exists_in-created :
    (fs : Files) (a i : ℕ)
    → exists_in (created fs a) (datafile_name i)
      ≡ (if a == i then true else exists_in fs (datafile_name i))
unfolding created
exists_in-created fs a i = elim (Bool-cases (a == i)) [ inl e ↦ rw e refl | inr e ↦ rw e refl ]

-- Neither an append to a data file nor a new data file is about hint files.
pub hint_in-append :
    (fs : Files) (a i : ℕ) (f : FileName) (bs : Bytes)
    → f ≡ datafile_name a
    → exists_in (append fs f bs) (hintfile_name i) ≡ exists_in fs (hintfile_name i)
unfolding append
hint_in-append fs a i f bs e = rw e (ground arith)

pub hint_in-created :
    (fs : Files) (a i : ℕ)
    → exists_in (created fs a) (hintfile_name i) ≡ exists_in fs (hintfile_name i)
unfolding created
hint_in-created fs a i = refl

-- A removed name keeps its bytes for those who have it open.
module _ (fs : Files) (a i : ℕ) where
  pub data_of-unlink : data_of (unlink fs (datafile_name a)) i ≡ data_of fs i
  unfolding unlink
  data_of-unlink = ground arith

  pub exists_in-unlink :
      exists_in (unlink fs (datafile_name a)) (datafile_name i)
      ≡ (if a == i then false else exists_in fs (datafile_name i))
  unfolding unlink
  exists_in-unlink = ground arith

  pub hint_in-unlink :
      exists_in (unlink fs (datafile_name a)) (hintfile_name i) ≡ exists_in fs (hintfile_name i)
  unfolding unlink
  hint_in-unlink = ground arith

-- What a successful `create` of a hint file leaves.
unfoldable pub hint_created : Files → ℕ → Files
hint_created fs a = with_file fs (hintfile_name a) (record { bytes = []; linked = true })

pub create-fresh_hint :
    (fs : Files) (a : ℕ)
    → exists_in fs (hintfile_name a) ≡ false
    → create fs (hintfile_name a) ≡ some (hint_created fs a)
unfolding create hint_created
create-fresh_hint fs a h = rw h refl

module _ (fs : Files) (a i : ℕ) where
  pub data_of-hint_created : data_of (hint_created fs a) i ≡ data_of fs i
  unfolding hint_created
  data_of-hint_created = refl

  pub exists_in-hint_created :
      exists_in (hint_created fs a) (datafile_name i) ≡ exists_in fs (datafile_name i)
  unfolding hint_created
  exists_in-hint_created = refl

  pub hint_in-hint_created :
      exists_in (hint_created fs a) (hintfile_name i)
      ≡ (if a == i then true else exists_in fs (hintfile_name i))
  unfolding hint_created
  hint_in-hint_created = elim (Bool-cases (a == i)) [ inl e ↦ rw e refl | inr e ↦ rw e refl ]

-- An append to a hint file.
module _ (fs : Files) (f : FileName) (a i : ℕ) (bs : Bytes) (e : f ≡ hintfile_name a) where
  pub data_of-hint_append : data_of (append fs f bs) i ≡ data_of fs i
  unfolding append
  data_of-hint_append = rw e (ground arith)

  pub exists_in-hint_append :
      exists_in (append fs f bs) (datafile_name i) ≡ exists_in fs (datafile_name i)
  unfolding append
  exists_in-hint_append = rw e (ground arith)

  pub hint_in-hint_append :
      exists_in (append fs f bs) (hintfile_name i) ≡ exists_in fs (hintfile_name i)
  unfolding append
  hint_in-hint_append = rw e (ground arith)

-- A hint file that is removed.
module _ (fs : Files) (a i : ℕ) where
  pub data_of-unlink_hint : data_of (unlink fs (hintfile_name a)) i ≡ data_of fs i
  unfolding unlink
  data_of-unlink_hint = ground arith

  pub exists_in-unlink_hint :
      exists_in (unlink fs (hintfile_name a)) (datafile_name i) ≡ exists_in fs (datafile_name i)
  unfolding unlink
  exists_in-unlink_hint = ground arith

  pub hint_in-unlink_hint :
      exists_in (unlink fs (hintfile_name a)) (hintfile_name i)
      ≡ (if a == i then false else exists_in fs (hintfile_name i))
  unfolding unlink
  hint_in-unlink_hint = ground arith
