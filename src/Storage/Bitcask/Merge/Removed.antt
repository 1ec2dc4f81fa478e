-- ===== src/Storage/Bitcask/Merge/Removed.antt =====
-- The key directory behind a merge, and the files without those that were merged.
use opal.Prelude.{
  ℕ, ◌≡◌, ◌⊎◌, inl, inr, refl, sym, ◌∙◌, subst, false, some, List, [], ◌∷◌, if◌then◌else◌, arith,
}
use opal.Env.{Bytes}
use opal.Storage.Bitcask.Data.{KeyDirEntry}
use opal.Storage.Bitcask.Crates.{Crates, IsLawful}
use opal.Storage.Bitcask.Files.{
  Files, datafile_name, hintfile_name, data_of, exists_in, unlink, data_of-unlink, exists_in-unlink,
  hint_in-unlink, data_of-unlink_hint, exists_in-unlink_hint, hint_in-unlink_hint,
}
use opal.Storage.Bitcask.Store.Append.{Bytes-discrete}
use opal.Storage.Bitcask.Merge.{contains}
use opal.Storage.Bitcask.Merge.Writer.{set_entries, remove_files}
use opal.Storage.Bitcask.Merge.Invariant.{Among}

pub data_of-remove_files :
    (ids : List ℕ) (fs : Files) (i : ℕ) → data_of (remove_files ids fs) i ≡ data_of fs i
unfolding remove_files
data_of-remove_files [] fs i = refl
data_of-remove_files (j ∷ ids) fs i =
    data_of-remove_files ids _ i
    ∙ data_of-unlink (unlink fs (hintfile_name j)) j i
    ∙ data_of-unlink_hint fs j i

pub exists_in-remove_files :
    (ids : List ℕ) (fs : Files) (i : ℕ)
    → exists_in (remove_files ids fs) (datafile_name i)
      ≡ (if contains i ids then false else exists_in fs (datafile_name i))
unfolding remove_files contains
exists_in-remove_files [] fs i = refl
exists_in-remove_files (j ∷ ids) fs i =
    exists_in-remove_files ids _ i
    ∙ ground
        (arith, exists_in-unlink (unlink fs (hintfile_name j)) j i, exists_in-unlink_hint fs j i)

pub hint_in-remove_files :
    (ids : List ℕ) (fs : Files) (i : ℕ)
    → exists_in fs (hintfile_name i) ≡ false
    → exists_in (remove_files ids fs) (hintfile_name i) ≡ false
unfolding remove_files
hint_in-remove_files [] fs i h = h
hint_in-remove_files (j ∷ ids) fs i h = hint_in-remove_files ids _ i (
    ground (arith, hint_in-unlink (unlink fs (hintfile_name j)) j i, hint_in-unlink_hint fs j i, h))

module _ (x : Crates) (laws : IsLawful x) where
  pub set_entries-cases :
      (ps : List (Bytes × KeyDirEntry)) (m : x.KeyDir) (k : Bytes)
      → ((e : KeyDirEntry) × Among k e ps × (x.get (set_entries x ps m) k ≡ some e))
        ⊎ ((x.get (set_entries x ps m) k ≡ x.get m k) × ((e : KeyDirEntry) → Among k e ps → ⊥))
  unfolding set_entries
  set_entries-cases [] m k = inr (refl, λ e h. h)
  set_entries-cases ((j, f) ∷ ps) m k = elim (Bytes-discrete j k) [
    | yes same ↦ inl (
      f,
      inl (sym same, refl),
      subst (λ z. x.get (x.insert (set_entries x ps m) j f) z ≡ some f) same
          (laws.get-insert_self (set_entries x ps m) j f),
    )
    | no other ↦
        (let new = laws.get-insert_ne (set_entries x ps m) j k f other in
          elim (set_entries-cases ps m k) [
            | inl (e, a, h) ↦ inl (e, inr a, new ∙ h)
            | inr (h, n) ↦
                inr (new ∙ h, λ e a. elim a [ inl (p, q) ↦ other (sym p) | inr b ↦ n e b ])
          ])
  ]
