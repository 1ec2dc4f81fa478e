-- ===== src/Storage/Bitcask/Recovery/Total.antt =====
-- Opening ends, whatever the files hold: a round of the loops reads at least a byte.
use opal.Prelude.{
  ℕ, zero, suc, ◌<◌, ◌≡◌, ◌≢◌, ◌⊎◌, refl, subst, Bool-cases, inl, inr, none, Option-cases, List, [],
  ◌∷◌, length, drop, length-drop, arith,
}
use opal.Env.{Bytes}
use opal.Storage.Bitcask.Data.{Config, io, not_found}
use opal.Storage.Bitcask.Crates.{Crates}
use opal.Storage.Bitcask.Files.{
  Files, FileName, datafile_name, hintfile_name, bytes_of, exists_in, create,
}
use opal.Storage.Bitcask.Recovery.{
  Decoded, entry, eof, bad, Streams, Rebuilt, Loaded, loaded, failed, out_of_fuel, Opened, opened,
  open_failed, stuck, data_loop, hint_loop, populate_keydir_with_datafile,
  populate_keydir_with_hintfile, load_files, or_datafile, then_load, nothing, sorted_fileids,
  most_recent, next_fileid, rebuild_storage, start, started, open_storage,
}
use opal.Storage.Bitcask.Recovery.Replay.{IsStream}

abbrev IsAnswer : {x : Crates} → Loaded x → Type 0
IsAnswer (loaded r) = Unit
IsAnswer (failed e) = Unit
IsAnswer out_of_fuel = ⊥

abbrev IsOutcome : {x : Crates} → Opened x → Type 0
IsOutcome (opened s) = Unit
IsOutcome (open_failed e) = Unit
IsOutcome stuck = ⊥

Decoded-cases :
    {A : Type 0} (d : Decoded A) → ((a : A) × (n : ℕ) × (d ≡ entry a n)) ⊎ (d ≡ eof) ⊎ (d ≡ bad)
Decoded-cases (entry a n) = inl (a, n, refl)
Decoded-cases eof = inr (inl refl)
Decoded-cases bad = inr (inr refl)

module _ (x : Crates) (st : Streams x) (io_laws : IsStream x st) where
  data_loop-IsAnswer :
      (fuel : ℕ) (rest : Bytes) (pos i : ℕ) (r : Rebuilt x)
      → length rest < fuel
      → IsAnswer (data_loop st fuel rest pos i r)
  unfolding data_loop
  data_loop-IsAnswer zero rest pos i r h = absurd (omega (arith, h))
  data_loop-IsAnswer (suc fuel) rest pos i r h = elim (Decoded-cases (st.data_from rest)) [
    | inl (d, n, e) ↦
        (let (low, high) = io_laws.data_from_takes rest d n e in
          rw (e, data_loop)
            (data_loop-IsAnswer fuel (drop n rest) _ i _ (omega (arith, h, length-drop n rest))))
    | inr (inl e) ↦ rw (e, data_loop) tt
    | inr (inr e) ↦ rw (e, data_loop) tt
  ]

  hint_loop-IsAnswer :
      (fuel : ℕ) (rest : Bytes) (pos i : ℕ) (r : Rebuilt x)
      → length rest < fuel
      → IsAnswer (hint_loop st fuel rest pos i r)
  unfolding hint_loop
  hint_loop-IsAnswer zero rest pos i r h = absurd (omega (arith, h))
  hint_loop-IsAnswer (suc fuel) rest pos i r h = elim (Decoded-cases (st.hint_from rest)) [
    | inl (d, n, e) ↦
        (let (low, high) = io_laws.hint_from_takes rest d n e in
          rw (e, hint_loop)
            (hint_loop-IsAnswer fuel (drop n rest) _ i _ (omega (arith, h, length-drop n rest))))
    | inr (inl e) ↦ rw (e, hint_loop) tt
    | inr (inr e) ↦ rw (e, hint_loop) tt
  ]

  then_load-IsAnswer :
      (l : Loaded x) (f : Rebuilt x → Loaded x)
      → IsAnswer l
      → ((r : Rebuilt x) → IsAnswer (f r))
      → IsAnswer (then_load st l f)
  then_load-IsAnswer (loaded r) f h g = g r
  then_load-IsAnswer (failed e) f h g = tt
  then_load-IsAnswer out_of_fuel f h g = h

  module _ (fs : Files) where
    datafile-IsAnswer : (i : ℕ) (r : Rebuilt x) → IsAnswer (populate_keydir_with_datafile st fs i r)
    unfolding populate_keydir_with_datafile
    datafile-IsAnswer i r = elim (Bool-cases (exists_in fs (datafile_name i))) [
      | inl e ↦
          (let bytes = bytes_of (fs (datafile_name i)) in
            rw e (data_loop-IsAnswer (suc (length bytes)) bytes 0 i r (omega arith)))
      | inr e ↦ rw e tt
    ]

    hintfile-IsAnswer : (i : ℕ) (r : Rebuilt x) → IsAnswer (populate_keydir_with_hintfile st fs i r)
    unfolding populate_keydir_with_hintfile
    hintfile-IsAnswer i r = elim (Bool-cases (exists_in fs (hintfile_name i))) [
      | inl e ↦
          (let bytes = bytes_of (fs (hintfile_name i)) in
            rw e (hint_loop-IsAnswer (suc (length bytes)) bytes 0 i r (omega arith)))
      | inr e ↦ rw e tt
    ]

    or_datafile-IsAnswer :
        (i : ℕ) (r : Rebuilt x) (l : Loaded x) → IsAnswer l → IsAnswer (or_datafile st fs i r l)
    or_datafile-IsAnswer i r (failed (io not_found)) h = datafile-IsAnswer i r
    or_datafile-IsAnswer i r l h = h

    load_files-IsAnswer : (is : List ℕ) (r : Rebuilt x) → IsAnswer (load_files st fs is r)
    unfolding load_files
    load_files-IsAnswer [] r = tt
    load_files-IsAnswer (i ∷ is) r =
        then_load-IsAnswer (or_datafile st fs i r (populate_keydir_with_hintfile st fs i r))
          (load_files st fs is)
          (or_datafile-IsAnswer i r (populate_keydir_with_hintfile st fs i r)
            (hintfile-IsAnswer i r))
          (load_files-IsAnswer is)

    started-IsOutcome :
        (conf : Config) (n i : ℕ) (l : Loaded x)
        → IsAnswer l
        → IsOutcome (started st conf n fs (l, i))
    unfolding start
    started-IsOutcome conf n i (loaded r) h = elim (Option-cases (create fs (datafile_name i))) [
      | inl e ↦ rw (e, start) tt
      | inr (fs', e) ↦ rw (e, start) tt
    ]
    started-IsOutcome conf n i (failed e) h = tt
    started-IsOutcome conf n i out_of_fuel h = h

    -- Opening a directory ends, with a storage or an error, whatever its files hold and whatever the names
    -- are: the fuel of the loops is enough.
    pub open_storage_ends :
        (conf : Config) (concurrency : ℕ) (names : List FileName)
        → open_storage st conf concurrency fs names ≢ stuck
    unfolding open_storage rebuild_storage
    open_storage_ends conf concurrency names h =
        let answer = load_files-IsAnswer (sorted_fileids names) (nothing st) in
        subst IsOutcome h (
          started-IsOutcome conf concurrency (next_fileid (most_recent none (sorted_fileids names)))
            (load_files st fs (sorted_fileids names) (nothing st)) answer)
