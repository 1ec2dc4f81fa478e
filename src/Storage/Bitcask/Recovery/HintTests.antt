-- ===== src/Storage/Bitcask/Recovery/HintTests.antt =====
-- The small instance of the crates with an encoding of hints, and a hint file that ends in a torn one.
use opal.Prelude.{
  ◌-◌, ◌≡◌, refl, ap, ◌∙◌, none, some, true, List, [], ◌∷◌, ◌++◌, append_assoc, length,
  length-append, arith,
}
use opal.Prelude.Int.{pos}
use opal.Env.{Bytes}
use opal.Storage.Bitcask.Data.{HintFileEntry}
use opal.Storage.Bitcask.Files.{Files, datafile_name, hintfile_name}
use opal.Storage.Bitcask.Store.Toy.{toy, toy-IsLawful, unary, marked, of_int}
use opal.Storage.Bitcask.Recovery.{
  Streams, entry, Rebuilt, loaded, nothing, populate_keydir_with_hintfile,
}
use opal.Storage.Bitcask.Recovery.Replay.{IsStream, blank, Matches}
use opal.Storage.Bitcask.Recovery.Toy.{
  Parsed, then, Shorter, Shorter-then, next_unary, next_marked, next_int, next_unary-Shorter,
  next_marked-Shorter, next_int-Shorter, next_unary-unary, next_marked-marked, next_int-of_int,
  as_decoded, takes, toy_streams, toy-IsStream,
}
use opal.Storage.Bitcask.Recovery.Hints.{replay_hints, populate_keydir_with_hintfile-replay_hints}

abbrev serialize_hint : HintFileEntry → Bytes
serialize_hint h = marked h.key ++ (unary h.len ++ (unary h.pos ++ of_int h.tstamp))

abbrev next_hint : Bytes → Parsed HintFileEntry
next_hint bs = then (next_marked bs) (λ k r. then (next_unary r) (λ n r1.
    then (next_unary r1) (λ p r2.
      then (next_int r2) (λ t r3. some (record { tstamp = t; len = n; pos = p; key = k }, r3)))))

next_hint-Shorter : (bs : Bytes) → Shorter (length bs) (next_hint bs)
next_hint-Shorter bs =
    Shorter-then (length bs) (length bs) (next_marked bs) _ (omega arith) (next_marked-Shorter bs)
      (λ k r h.
        Shorter-then (length r) (length bs) (next_unary r) _ (omega arith) (next_unary-Shorter r)
          (λ n r1 h1.
            Shorter-then (length r1) (length bs) (next_unary r1) _ (omega arith)
              (next_unary-Shorter r1)
              (λ p r2 h2.
                Shorter-then (length r2) (length bs) (next_int r2) _ (omega arith)
                  (next_int-Shorter r2) (λ t r3 h3. omega arith))))

next_hint-serialize :
    (h : HintFileEntry) (r : Bytes) → next_hint (serialize_hint h ++ r) ≡ some (h, r)
next_hint-serialize h r =
    rw (append_assoc (marked h.key) (unary h.len ++ (unary h.pos ++ of_int h.tstamp)) r) (
      rw (next_marked-marked h.key ((unary h.len ++ (unary h.pos ++ of_int h.tstamp)) ++ r)) (
        rw (append_assoc (unary h.len) (unary h.pos ++ of_int h.tstamp) r) (
          rw (next_unary-unary h.len ((unary h.pos ++ of_int h.tstamp) ++ r)) (
            rw (append_assoc (unary h.pos) (of_int h.tstamp) r) (
              rw (next_unary-unary h.pos (of_int h.tstamp ++ r))
                (rw (next_int-of_int h.tstamp r) refl))))))

abbrev streams : Streams toy
streams = record toy_streams { hint_from = λ bs. as_decoded bs (next_hint bs) }

streams-IsStream : IsStream toy streams
streams-IsStream = record {
  data_from-serialize = toy-IsStream.data_from-serialize;
  data_from-nil = toy-IsStream.data_from-nil;
  data_from_takes = toy-IsStream.data_from_takes;
  hint_from_takes = λ bs h n. takes bs (next_hint bs) h n (next_hint-Shorter bs);
  length-serialize = toy-IsStream.length-serialize;
  deserialize-nil = refl;
  get-empty_keydir = λ k. refl;
  peek-empty_cache = λ i. refl;
}

hint_from-serialize :
    (h : HintFileEntry) (r : Bytes)
    → as_decoded (serialize_hint h ++ r) (next_hint (serialize_hint h ++ r))
      ≡ entry h (length (serialize_hint h))
hint_from-serialize h r =
    let n : length (serialize_hint h ++ r) - length r ≡ length (serialize_hint h) =
      omega (arith, length-append (serialize_hint h) r) in
    ap (as_decoded (serialize_hint h ++ r)) (next_hint-serialize h r) ∙ ap (entry h) n

abbrev hints : List HintFileEntry
hints =
    record { tstamp = pos 1; len = 7; pos = 0; key = 107 ∷ [] }
    ∷ record { tstamp = pos 2; len = 7; pos = 7; key = 108 ∷ [] }
    ∷ []

abbrev files : Files
files (datafile_name i) = none
files (hintfile_name i) = some (record {
  bytes =
      (serialize_hint (record { tstamp = pos 1; len = 7; pos = 0; key = 107 ∷ [] })
        ++ (serialize_hint (record { tstamp = pos 2; len = 7; pos = 7; key = 108 ∷ [] }) ++ []))
      ++ 1 ∷ [];
  linked = true;
})

populate_keydir_with_hintfile-replay_hints_example :
    (r : Rebuilt toy) × (populate_keydir_with_hintfile streams files 4 (nothing streams) ≡ loaded r)
    × Matches toy r (replay_hints 4 hints blank)
populate_keydir_with_hintfile-replay_hints_example =
    populate_keydir_with_hintfile-replay_hints toy toy-IsLawful streams streams-IsStream
      serialize_hint hint_from-serialize files 4 hints (1 ∷ []) (nothing streams) blank refl refl
      refl (record { entries = λ k. refl; stats = refl })
