-- ===== src/Storage/Bitcask/Store/Growth.antt =====
-- Files that only grow keep every record.
use opal.Prelude.{
  ℕ, suc, ◌+◌, ◌≤◌, ◌≡◌, sym, ap, ◌∙◌, true, [], ◌++◌, length, length-append, take, drop,
  take-append, drop-append, length-drop, drop-length, take-length_self, append-nil, append_assoc,
  ◌==◌, if◌then◌else◌, arith,
}
use opal.Env.{Bytes}
use opal.Storage.Bitcask.Data.{KeyDirEntry}
use opal.Storage.Bitcask.Crates.{Crates}
use opal.Storage.Bitcask.Files.{
  Files, FileName, datafile_name, data_of, exists_in, append, created, data_of-append,
  exists_in-append, data_of-created, exists_in-created,
}
use opal.Storage.Bitcask.Store.Located.{record_at, IsRecord}

-- Up to the id `n`, the data files of `fs'` hold those of `fs` and perhaps more.
pub record Grows (n : ℕ) (fs fs' : Files) : Type 0 where
  pub more : ℕ → Bytes
  pub grown : (i : ℕ) → i ≤ n → data_of fs' i ≡ data_of fs i ++ more i
  pub kept :
      (i : ℕ) → exists_in fs (datafile_name i) ≡ true → exists_in fs' (datafile_name i) ≡ true

slice-append :
    (n p : ℕ) (xs ys : Bytes) → p + n ≤ length xs → take n (drop p (xs ++ ys)) ≡ take n (drop p xs)
slice-append n p xs ys h =
    rw (drop-append p xs ys (omega arith))
      (take-append n (drop p xs) ys (omega (arith, length-drop p xs)))

pub slice-new :
    (xs ys : Bytes) (n p : ℕ) → p ≡ length xs → n ≡ length ys → take n (drop p (xs ++ ys)) ≡ ys
slice-new xs ys n p e f = rw e (rw f (rw (drop-length xs ys) (take-length_self ys)))

-- An entry of a file that another directory holds with more behind.
module _ (x : Crates) (fs fs' : Files) (e : KeyDirEntry) (more : Bytes)
    (grown : data_of fs' e.fileid ≡ data_of fs e.fileid ++ more) where
  pub record_at-append :
      e.pos + e.len ≤ length (data_of fs e.fileid) → record_at x fs' e ≡ record_at x fs e
  unfolding record_at
  record_at-append p =
      ap (λ bs. x.deserialize (take e.len (drop e.pos bs))) grown
      ∙ ap x.deserialize (slice-append e.len e.pos (data_of fs e.fileid) more p)

  pub IsRecord-append :
      (k : Bytes)
      → exists_in fs' (datafile_name e.fileid) ≡ true
      → IsRecord x fs k e
      → IsRecord x fs' k e
  IsRecord-append k h r = record {
    inside = rw grown (omega (arith, length-append (data_of fs e.fileid) more, r.inside));
    present = h;
    holds =
        let (d, v, at, key, value) = r.holds in (d, v, record_at-append r.inside ∙ at, key, value);
  }

module _ (x : Crates) {n : ℕ} {fs fs' : Files} (g : Grows n fs fs') where
  pub record_at-Grows :
      (e : KeyDirEntry)
      → e.fileid ≤ n
      → e.pos + e.len ≤ length (data_of fs e.fileid)
      → record_at x fs' e ≡ record_at x fs e
  record_at-Grows e h = record_at-append x fs fs' e (g.more e.fileid) (g.grown e.fileid h)

  pub IsRecord-Grows :
      (k : Bytes) (e : KeyDirEntry) → e.fileid ≤ n → IsRecord x fs k e → IsRecord x fs' k e
  IsRecord-Grows k e h r =
      IsRecord-append x fs fs' e (g.more e.fileid) (g.grown e.fileid h) k
        (g.kept e.fileid r.present) r

pub Grows-append :
    (n : ℕ) (fs : Files) (f : FileName) (a : ℕ) (bs : Bytes)
    → f ≡ datafile_name a
    → exists_in fs (datafile_name a) ≡ true
    → Grows n fs (append fs f bs)
Grows-append n fs f a bs e h = record {
  more = λ i. if a == i then bs else [];
  grown = λ i _. data_of-append fs f a i bs e h ∙ joined i;
  kept = λ i p. exists_in-append fs f a i bs e ∙ p;
}
  where
    joined :
        (i : ℕ)
        → (if a == i then data_of fs a ++ bs else data_of fs i)
          ≡ data_of fs i ++ (if a == i then bs else [])
    joined i = ground (arith, append-nil (data_of fs i))

pub Grows-created : (n : ℕ) (fs : Files) → Grows n fs (created fs (suc n))
Grows-created n fs = record {
  more = λ i. [];
  grown = λ i h. ground (arith, data_of-created fs (suc n) i, append-nil (data_of fs i));
  kept = λ i p. ground (arith, exists_in-created fs (suc n) i);
}

pub Grows-trans : {n : ℕ} {fs gs hs : Files} → Grows n fs gs → Grows n gs hs → Grows n fs hs
Grows-trans {fs = fs} {gs = gs} g h = record {
  more = λ i. g.more i ++ h.more i;
  grown = λ i p.
      h.grown i p
      ∙ ap (λ z. z ++ h.more i) (g.grown i p)
      ∙ append_assoc (data_of fs i) (g.more i) (h.more i);
  kept = λ i p. h.kept i (g.kept i p);
}

pub Grows-refl : (n : ℕ) (fs : Files) → Grows n fs fs
Grows-refl n fs = record {
  more = λ i. [];
  grown = λ i h. sym (append-nil (data_of fs i));
  kept = λ i p. p;
}
