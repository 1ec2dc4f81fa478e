-- ===== src/Storage/Bitcask/Merge/Present.antt =====
-- Statistics are kept of files that are there only.
use opal.Prelude.{ℕ, ◌≡◌, refl, true, false, Bool-cases, inl, inr, List, [], ◌∷◌, ◌==◌, arith}
use opal.Storage.Bitcask.Files.{Files, datafile_name, exists_in}
use opal.Storage.Bitcask.Stats.{Stats, LogStatistics, at_entry}
use opal.Storage.Bitcask.Merge.{contains}
use opal.Storage.Bitcask.Merge.Writer.{remove_stats, remove_all_stats}

-- The files that have statistics are there.
abbrev pub AllPresent : Files → Stats → Type 0
AllPresent fs [] = Unit
AllPresent fs ((i, _) ∷ stats) = (exists_in fs (datafile_name i) ≡ true) × AllPresent fs stats

pub AllPresent-kept :
    (fs fs' : Files) (stats : Stats)
    → ((i : ℕ) → exists_in fs (datafile_name i) ≡ true → exists_in fs' (datafile_name i) ≡ true)
    → AllPresent fs stats
    → AllPresent fs' stats
AllPresent-kept fs fs' [] k h = tt
AllPresent-kept fs fs' ((i, s) ∷ stats) k h = (k i h.0, AllPresent-kept fs fs' stats k h.1)

pub AllPresent-at_entry :
    (fs : Files) (i : ℕ) (f : LogStatistics → LogStatistics) (stats : Stats)
    → exists_in fs (datafile_name i) ≡ true
    → AllPresent fs stats
    → AllPresent fs (at_entry i f stats)
unfolding at_entry
AllPresent-at_entry fs i f [] p h = (p, tt)
AllPresent-at_entry fs i f ((j, s) ∷ stats) p h = elim (Bool-cases (j == i)) [
  | inl e ↦ rw e h
  | inr e ↦ rw e (h.0, AllPresent-at_entry fs i f stats p h.1)
]

-- What is known of every id that has statistics.
abbrev AllIds : (ℕ → Type 0) → Stats → Type 0
AllIds P [] = Unit
AllIds P ((i, _) ∷ stats) = P i × AllIds P stats

AllIds-remove_stats :
    (P : ℕ → Type 0) (j : ℕ) (stats : Stats)
    → AllIds P stats
    → AllIds (λ i. P i × ((i == j) ≡ false)) (remove_stats j stats)
unfolding remove_stats
AllIds-remove_stats P j [] h = tt
AllIds-remove_stats P j ((i, s) ∷ stats) h = elim (Bool-cases (i == j)) [
  | inl e ↦ rw e (AllIds-remove_stats P j stats h.1)
  | inr e ↦ rw e ((h.0, e), AllIds-remove_stats P j stats h.1)
]

AllIds-map :
    (P Q : ℕ → Type 0) (stats : Stats) → ((i : ℕ) → P i → Q i) → AllIds P stats → AllIds Q stats
AllIds-map P Q [] f h = tt
AllIds-map P Q ((i, s) ∷ stats) f h = (f i h.0, AllIds-map P Q stats f h.1)

AllIds-remove_all_stats :
    (P Q : ℕ → Type 0) (ids : List ℕ) (stats : Stats)
    → ((i : ℕ) → P i → contains i ids ≡ false → Q i)
    → AllIds P stats
    → AllIds Q (remove_all_stats ids stats)
unfolding remove_all_stats contains
AllIds-remove_all_stats P Q [] stats f h = AllIds-map P Q stats (λ i p. f i p refl) h
AllIds-remove_all_stats P Q (j ∷ ids) stats f h =
    AllIds-remove_all_stats (λ i. P i × ((i == j) ≡ false)) Q ids (remove_stats j stats)
      (λ i p c. f i p.0 (ground (arith, p.1, c))) (AllIds-remove_stats P j stats h)

AllPresent-AllIds :
    (fs : Files) (stats : Stats)
    → AllPresent fs stats
    → AllIds (λ i. exists_in fs (datafile_name i) ≡ true) stats
AllPresent-AllIds fs [] h = tt
AllPresent-AllIds fs ((i, s) ∷ stats) h = (h.0, AllPresent-AllIds fs stats h.1)

AllIds-AllPresent :
    (fs : Files) (stats : Stats)
    → AllIds (λ i. exists_in fs (datafile_name i) ≡ true) stats
    → AllPresent fs stats
AllIds-AllPresent fs [] h = tt
AllIds-AllPresent fs ((i, s) ∷ stats) h = (h.0, AllIds-AllPresent fs stats h.1)

-- The files of the statistics that stay.
pub AllPresent-remove_all_stats :
    (fs fs' : Files) (ids : List ℕ) (stats : Stats)
    → ((i : ℕ)
        → exists_in fs (datafile_name i) ≡ true
        → contains i ids ≡ false
        → exists_in fs' (datafile_name i) ≡ true)
    → AllPresent fs stats
    → AllPresent fs' (remove_all_stats ids stats)
AllPresent-remove_all_stats fs fs' ids stats f h =
    AllIds-AllPresent fs' (remove_all_stats ids stats) (
      AllIds-remove_all_stats (λ i. exists_in fs (datafile_name i) ≡ true)
        (λ i. exists_in fs' (datafile_name i) ≡ true) ids stats f (AllPresent-AllIds fs stats h))
