-- ===== src/Storage/Bitcask/Merge/Invariant.antt =====
-- What holds in the loop of `merge`: the old files are as they were, and every entry that was moved points
-- at a copy of the record that its key had.
use opal.Prelude.{
  ℕ, suc, ◌≤◌, ◌<◌, ◌≡◌, ◌⊎◌, inl, inr, refl, sym, ap, ◌∙◌, subst, true, false, some, List, [], ◌∷◌,
  append-nil, length, ◌==◌, if◌then◌else◌, arith,
}
use opal.Env.{Bytes}
use opal.Storage.Bitcask.Data.{KeyDirEntry, u64_size}
use opal.Storage.Bitcask.Crates.{Crates}
use opal.Storage.Bitcask.Files.{
  Files, datafile_name, hintfile_name, data_of, exists_in, created, create-fresh, data_of-created,
  exists_in-created, hint_in-created, hint_created, create-fresh_hint, data_of-hint_created,
  exists_in-hint_created, hint_in-hint_created,
}
use opal.Storage.Bitcask.Log.{new_writer}
use opal.Storage.Bitcask.Store.{Store}
use opal.Storage.Bitcask.Store.Located.{record_at, IsRecord, IsSound}
use opal.Storage.Bitcask.Store.Growth.{
  Grows, Grows-created, Grows-trans, record_at-Grows, IsRecord-Grows,
}
use opal.Storage.Bitcask.Merge.{Copying, copying}
use opal.Storage.Bitcask.Merge.Writer.{new_files}
use opal.Storage.Bitcask.Merge.Present.{AllPresent, AllPresent-kept}

-- Membership, and a predicate on all entries.
abbrev pub Among : Bytes → KeyDirEntry → List (Bytes × KeyDirEntry) → Type 0
Among k e [] = ⊥
Among k e ((k', e') ∷ ps) = ((k ≡ k') × (e ≡ e')) ⊎ Among k e ps

Grows-hint_created : (n : ℕ) (fs : Files) (a : ℕ) → Grows n fs (hint_created fs a)
Grows-hint_created n fs a = record {
  more = λ i. [];
  grown = λ i h. data_of-hint_created fs a i ∙ sym (append-nil (data_of fs i));
  kept = λ i p. exists_in-hint_created fs a i ∙ p;
}

module _ (x : Crates) (s : Store x) where
  -- The entry of a key that was moved: its record is the one that the key had.
  pub record IsMoved (fs : Files) (n : ℕ) (k : Bytes) (e' : KeyDirEntry) : Type 0 where
    pub old : KeyDirEntry
    pub there : x.get s.keydir k ≡ some old
    pub same : record_at x fs e' ≡ record_at x s.files old
    pub whole : IsRecord x fs k e'
    pub above : s.active_fileid < e'.fileid
    pub below : e'.fileid ≤ n

  abbrev pub AllMoved : Files → ℕ → List (Bytes × KeyDirEntry) → Type 0
  AllMoved fs n [] = Unit
  AllMoved fs n ((k, e) ∷ ps) = IsMoved fs n k e × AllMoved fs n ps

  pub AllMoved-Among :
      (fs : Files) (n : ℕ) (ps : List (Bytes × KeyDirEntry)) (k : Bytes) (e : KeyDirEntry)
      → AllMoved fs n ps
      → Among k e ps
      → IsMoved fs n k e
  AllMoved-Among fs n [] k e h m = elim m [ ]
  AllMoved-Among fs n ((k', e') ∷ ps) k e h (inl (p, q)) =
      subst (λ z. IsMoved fs n z e) (sym p) (subst (λ z. IsMoved fs n k' z) (sym q) h.0)
  AllMoved-Among fs n ((k', e') ∷ ps) k e h (inr m) = AllMoved-Among fs n ps k e h.1 m

  pub AllMoved-Grows :
      (fs fs' : Files) (n n' : ℕ) (ps : List (Bytes × KeyDirEntry))
      → Grows n fs fs'
      → n ≤ n'
      → AllMoved fs n ps
      → AllMoved fs' n' ps
  AllMoved-Grows fs fs' n n' [] g l h = tt
  AllMoved-Grows fs fs' n n' ((k, e) ∷ ps) g l h = (
    record {
      old = h.0.old;
      there = h.0.there;
      same = record_at-Grows x g e h.0.below h.0.whole.inside ∙ h.0.same;
      whole = IsRecord-Grows x g k e h.0.below h.0.whole;
      above = h.0.above;
      below = omega (arith, h.0.below);
    },
    AllMoved-Grows fs fs' n n' ps g l h.1,
  )

  -- Between two merge files, with ids up to `n` taken.
  pub record IsBetween (c : Copying x) (n : ℕ) : Type 0 where
    pub later : s.active_fileid ≤ n
    pub old_data : (i : ℕ) → i ≤ s.active_fileid → data_of c.files i ≡ data_of s.files i
    pub old_names :
        (i : ℕ)
        → i ≤ s.active_fileid
        → exists_in c.files (datafile_name i) ≡ exists_in s.files (datafile_name i)
    pub fresh : (i : ℕ) → n < i → exists_in c.files (datafile_name i) ≡ false
    pub fresh_hint : (i : ℕ) → n < i → exists_in c.files (hintfile_name i) ≡ false
    pub small : (i : ℕ) → length (data_of c.files i) < u64_size
    pub sound : IsSound x s c.cache
    pub present : AllPresent c.files c.stats
    pub all_moved : AllMoved c.files n c.moved

  -- In a round, with the merge file open.
  pub record IsCopying (c : Copying x) : Type 0 where
    pub between : IsBetween c c.merge_fileid
    pub above : s.active_fileid < c.merge_fileid
    pub present : exists_in c.files (datafile_name c.merge_fileid) ≡ true
    pub at_pos : c.merge_pos ≡ length (data_of c.files c.merge_fileid)
    pub hint_file : c.hint.file ≡ hintfile_name c.merge_fileid

  -- The next pair of files is created.
  pub new_files-IsCopying :
      (c : Copying x) (n : ℕ)
      → IsBetween c n
      → (c' : Copying x) × (new_files (suc n) c ≡ copying c')
        × IsCopying c'
        × (c'.merge_fileid ≡ suc n)
        × (c'.merge_pos ≡ 0)
        × (c'.moved ≡ c.moved)
  unfolding new_files new_writer
  new_files-IsCopying c n b =
      let fs1 = created c.files (suc n) in
      let fs = hint_created fs1 (suc n) in
      let c' : Copying x = record c {
        files = fs;
        merge_fileid = suc n;
        merge_pos = 0;
        hint = new_writer fs (hintfile_name (suc n));
      } in
      let no_hint : exists_in fs1 (hintfile_name (suc n)) ≡ false =
        hint_in-created c.files (suc n) (suc n) ∙ b.fresh_hint (suc n) (omega arith) in
      let g : Grows n c.files fs =
        Grows-trans (Grows-created n c.files) (Grows-hint_created n fs1 (suc n)) in
      let bytes : (i : ℕ) → data_of fs i ≡ (if suc n == i then [] else data_of c.files i) =
        λ i. data_of-hint_created fs1 (suc n) i ∙ data_of-created c.files (suc n) i in
      let named : (i : ℕ)
          → exists_in fs (datafile_name i)
            ≡ (if suc n == i then true else exists_in c.files (datafile_name i)) =
        λ i. exists_in-hint_created fs1 (suc n) i ∙ exists_in-created c.files (suc n) i in
      let later = b.later in
      (
        c',
        rw (create-fresh c.files (suc n) (b.fresh (suc n) (omega arith)), new_files)
            (rw (create-fresh_hint fs1 (suc n) no_hint) refl),
        record {
          between = record {
            later = omega arith;
            old_data = λ i h. ground (arith, bytes i, b.old_data i h);
            old_names = λ i h. ground (arith, named i, b.old_names i h);
            fresh = λ i h. ground (arith, named i, b.fresh i (omega (arith, h)));
            fresh_hint = λ i h. ground (
              arith,
              hint_in-hint_created fs1 (suc n) i,
              hint_in-created c.files (suc n) i,
              b.fresh_hint i (omega (arith, h)),
            );
            small = λ i. ground (arith, ap length (bytes i), b.small i);
            sound = b.sound;
            present =
                AllPresent-kept c.files fs c.stats (λ i h. ground (arith, named i, h)) b.present;
            all_moved = AllMoved-Grows c.files fs n (suc n) c.moved g (omega arith) b.all_moved;
          };
          above = omega arith;
          present = ground (arith, named (suc n));
          at_pos = ground (arith, ap length (bytes (suc n)));
          hint_file = refl;
        },
        refl,
        refl,
        refl,
      )
