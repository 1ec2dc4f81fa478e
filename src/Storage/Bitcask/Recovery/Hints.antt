-- ===== src/Storage/Bitcask/Recovery/Hints.antt =====
-- What a hint file says: `populate_keydir_with_hintfile` puts its entries into the key directory in order.
use opal.Prelude.{
  ℕ, zero, suc, ◌<◌, ◌≤◌, ◌≡◌, refl, ap, ◌∙◌, some, true, List, [], ◌∷◌, ◌++◌, length,
  length-append, append_assoc, drop, drop-length, arith,
}
use opal.Env.{Bytes}
use opal.Storage.Bitcask.Data.{HintFileEntry, add_u64}
use opal.Storage.Bitcask.Crates.{Crates, IsLawful}
use opal.Storage.Bitcask.Files.{Files, hintfile_name, bytes_of, exists_in}
use opal.Storage.Bitcask.Stats.{at_entry, add_live}
use opal.Storage.Bitcask.Store.{overwritten}
use opal.Storage.Bitcask.Recovery.{
  Streams, entry, eof, Rebuilt, loaded, on_hint, hint_loop, populate_keydir_with_hintfile,
}
use opal.Storage.Bitcask.Recovery.Replay.{IsStream, Index, assign_entry, Matches, get-insert-assign}

abbrev pub serialize_hints : (HintFileEntry → Bytes) → List HintFileEntry → Bytes
serialize_hints f [] = []
serialize_hints f (h ∷ hs) = f h ++ serialize_hints f hs

-- The entry that a hint stands for.
abbrev pub hinted : ℕ → HintFileEntry → Index → Index
hinted i h m = record {
  entries =
      assign_entry h.key (some (record { fileid = i; len = h.len; pos = h.pos; tstamp = h.tstamp }))
        m.entries;
  stats = overwritten (m.entries h.key) (at_entry i add_live m.stats);
}

unfoldable pub replay_hints : ℕ → List HintFileEntry → Index → Index
replay_hints i [] m = m
replay_hints i (h ∷ hs) m = replay_hints i hs (hinted i h m)

module _ (x : Crates) (laws : IsLawful x) (st : Streams x) (io_laws : IsStream x st)
    (serialize_hint : HintFileEntry → Bytes)
    (hint_from-serialize : (h : HintFileEntry) (rest : Bytes)
      → st.hint_from (serialize_hint h ++ rest) ≡ entry h (length (serialize_hint h))) where
  on_hint-Matches :
      (i : ℕ) (h : HintFileEntry) (r : Rebuilt x) (m : Index)
      → Matches x r m
      → Matches x (on_hint i h r) (hinted i h m)
  on_hint-Matches i h r m g = record {
    entries = get-insert-assign x laws st io_laws r.keydir m.entries h.key _ g.entries;
    stats = rw (g.entries h.key) (rw g.stats refl);
  }

  nonempty : (h : HintFileEntry) → 0 < length (serialize_hint h)
  nonempty h =
      (io_laws.hint_from_takes (serialize_hint h ++ []) h (length (serialize_hint h))
        (hint_from-serialize h [])).0

  length-serialize_hints :
      (hs : List HintFileEntry) → length hs ≤ length (serialize_hints serialize_hint hs)
  length-serialize_hints [] = omega arith
  length-serialize_hints (h ∷ hs) = omega (
    arith,
    length-serialize_hints hs,
    nonempty h,
    length-append (serialize_hint h) (serialize_hints serialize_hint hs),
  )

  hint_loop-entry :
      (fuel : ℕ) (bs rest : Bytes) (pos n i : ℕ) (r : Rebuilt x) (h : HintFileEntry)
      → st.hint_from bs ≡ entry h n
      → drop n bs ≡ rest
      → hint_loop st (suc fuel) bs pos i r
        ≡ hint_loop st fuel rest (add_u64 pos n) i (on_hint i h r)
  unfolding hint_loop
  hint_loop-entry fuel bs rest pos n i r h e f =
      rw (e, hint_loop) (ap (λ z. hint_loop st fuel z (add_u64 pos n) i (on_hint i h r)) f)

  hint_loop-replay_hints :
      (hs : List HintFileEntry) (tail : Bytes) (fuel pos i : ℕ) (r : Rebuilt x) (m : Index)
      → st.hint_from tail ≡ eof
      → length hs < fuel
      → Matches x r m
      → (r' : Rebuilt x) × (hint_loop st fuel (serialize_hints serialize_hint hs ++ tail) pos i r
          ≡ loaded r')
        × Matches x r' (replay_hints i hs m)
  unfolding hint_loop replay_hints
  hint_loop-replay_hints hs tail zero pos i r m e f g = absurd (omega (arith, f))
  hint_loop-replay_hints [] tail (suc fuel) pos i r m e f g = (r, rw (e, hint_loop) refl, g)
  hint_loop-replay_hints (h ∷ hs) tail (suc fuel) pos i r m e f g =
      let n = length (serialize_hint h) in
      let rest = serialize_hints serialize_hint hs ++ tail in
      let (r', eq, k) =
        hint_loop-replay_hints hs tail fuel (add_u64 pos n) i (on_hint i h r) (hinted i h m) e
          (omega (arith, f)) (on_hint-Matches i h r m g) in
      let whole = append_assoc (serialize_hint h) (serialize_hints serialize_hint hs) tail in
      let first = ap st.hint_from whole ∙ hint_from-serialize h rest in
      let left = ap (drop n) whole ∙ drop-length (serialize_hint h) rest in
      (r', hint_loop-entry fuel _ rest pos n i r h first left ∙ eq, k)

  -- A hint file that holds entries as `bincode` writes them, and perhaps a torn one behind, is read without
  -- an error: the key directory and the statistics become those that putting the entries in, in order and
  -- each as a live key, makes of what was there before.
  pub populate_keydir_with_hintfile-replay_hints :
      (fs : Files) (i : ℕ) (hs : List HintFileEntry) (tail : Bytes) (r : Rebuilt x) (m : Index)
      → exists_in fs (hintfile_name i) ≡ true
      → bytes_of (fs (hintfile_name i)) ≡ serialize_hints serialize_hint hs ++ tail
      → st.hint_from tail ≡ eof
      → Matches x r m
      → (r' : Rebuilt x) × (populate_keydir_with_hintfile st fs i r ≡ loaded r')
        × Matches x r' (replay_hints i hs m)
  unfolding populate_keydir_with_hintfile
  populate_keydir_with_hintfile-replay_hints fs i hs tail r m p e stop g =
      let fuel = suc (length (bytes_of (fs (hintfile_name i)))) in
      let (r', eq, k) =
        hint_loop-replay_hints hs tail fuel 0 i r m stop
          (omega (
            arith,
            ap length e,
            length-append (serialize_hints serialize_hint hs) tail,
            length-serialize_hints hs,
          ))
          g in
      (r', rw p (ap (λ bs. hint_loop st fuel bs 0 i r) e ∙ eq), k)
