-- ===== src/Storage/Bitcask/Merge/Written.antt =====
-- A round of the loop of `merge` keeps the invariant.
use opal.Prelude.{
  ℕ, ◌+◌, ◌<◌, ◌≡◌, refl, sym, ap, ◌∙◌, some, [], ◌++◌, append-nil, length, length-append, take,
  drop, ◌==◌, if◌then◌else◌, arith,
}
use opal.Env.{Bytes}
use opal.Storage.Bitcask.Data.{KeyDirEntry, u64_size}
use opal.Storage.Bitcask.Crates.{Crates}
use opal.Storage.Bitcask.Files.{
  datafile_name, hintfile_name, data_of, exists_in, append, data_of-append, exists_in-append,
  hint_in-append, data_of-hint_append, exists_in-hint_append, hint_in-hint_append,
}
use opal.Storage.Bitcask.Stats.{add_live}
use opal.Storage.Bitcask.Store.{Store}
use opal.Storage.Bitcask.Store.Located.{record_at, IsValid}
use opal.Storage.Bitcask.Store.Growth.{Grows, slice-new}
use opal.Storage.Bitcask.Merge.{Copies, Copying}
use opal.Storage.Bitcask.Merge.Writer.{moved_to}
use opal.Storage.Bitcask.Merge.Present.{AllPresent-kept, AllPresent-at_entry}
use opal.Storage.Bitcask.Merge.Invariant.{IsMoved, AllMoved-Grows, IsCopying}

module _ (x : Crates) (s : Store x) where
  -- The bytes of an entry are written behind the others.
  module _ (cp : Copies x) (v : IsValid x s) (c : Copying x) (b : IsCopying x s c) (key : Bytes)
      (e : KeyDirEntry) (there : x.get s.keydir key ≡ some e) (bs : Bytes)
      (read : x.deserialize bs ≡ record_at x s.files e)
      (room : c.merge_pos + length bs < u64_size) where
    abbrev c1 : Copying x
    c1 = moved_to cp key e bs c

    abbrev entry : KeyDirEntry
    entry = record {
      fileid = c.merge_fileid;
      len = length bs;
      pos = c.merge_pos;
      tstamp = e.tstamp;
    }

    bytes :
        (i : ℕ)
        → data_of c1.files i ≡ (
            if c.merge_fileid == i then data_of c.files c.merge_fileid ++ bs else data_of c.files i)
    unfolding moved_to
    bytes i =
        data_of-hint_append (append c.files (datafile_name c.merge_fileid) bs) c.hint.file
          c.merge_fileid i _ b.hint_file
        ∙ data_of-append c.files (datafile_name c.merge_fileid) c.merge_fileid i bs refl b.present

    named : (i : ℕ) → exists_in c1.files (datafile_name i) ≡ exists_in c.files (datafile_name i)
    unfolding moved_to
    named i =
        exists_in-hint_append (append c.files (datafile_name c.merge_fileid) bs) c.hint.file
          c.merge_fileid i _ b.hint_file
        ∙ exists_in-append c.files (datafile_name c.merge_fileid) c.merge_fileid i bs refl

    hinted : (i : ℕ) → exists_in c1.files (hintfile_name i) ≡ exists_in c.files (hintfile_name i)
    unfolding moved_to
    hinted i =
        hint_in-hint_append (append c.files (datafile_name c.merge_fileid) bs) c.hint.file
          c.merge_fileid i _ b.hint_file
        ∙ hint_in-append c.files c.merge_fileid i (datafile_name c.merge_fileid) bs refl

    grows : Grows c.merge_fileid c.files c1.files
    grows = record {
      more = λ i. if c.merge_fileid == i then bs else [];
      grown = λ i h. ground (arith, bytes i, append-nil (data_of c.files i));
      kept = λ i h. named i ∙ h;
    }

    here : data_of c1.files c.merge_fileid ≡ data_of c.files c.merge_fileid ++ bs
    here = ground (arith, bytes c.merge_fileid)

    same : record_at x c1.files entry ≡ record_at x s.files e
    unfolding record_at
    same =
        ap (λ z. x.deserialize (take (length bs) (drop c.merge_pos z))) here
        ∙ ap x.deserialize
            (slice-new (data_of c.files c.merge_fileid) bs (length bs) c.merge_pos b.at_pos refl)
        ∙ read

    entry-IsMoved : IsMoved x s c1.files c.merge_fileid key entry
    entry-IsMoved = record {
      old = e;
      there = there;
      same = same;
      whole = record {
        inside =
            omega
              (arith, ap length here, length-append (data_of c.files c.merge_fileid) bs, b.at_pos);
        present = named c.merge_fileid ∙ b.present;
        holds = let (d, w, at, k, val) = (v.entries key e there).holds in (d, w, same ∙ at, k, val);
      };
      above = b.above;
      below = omega arith;
    }

    pub moved_to-pos : c1.merge_pos ≡ c.merge_pos + length bs
    unfolding moved_to
    moved_to-pos = omega (arith, room)

    pub moved_to-IsCopying : IsCopying x s c1
    unfolding moved_to
    moved_to-IsCopying = record {
      between = record {
        later = b.between.later;
        old_data = λ i h. ground (arith, bytes i, b.between.old_data i h, b.above);
        old_names = λ i h. named i ∙ b.between.old_names i h;
        fresh = λ i h. named i ∙ b.between.fresh i h;
        fresh_hint = λ i h. hinted i ∙ b.between.fresh_hint i h;
        small = λ i. ground (
          arith,
          ap length (bytes i),
          length-append (data_of c.files c.merge_fileid) bs,
          b.between.small i,
          b.at_pos,
          room,
        );
        sound = b.between.sound;
        present =
            AllPresent-at_entry c1.files c.merge_fileid add_live c.stats
              (named c.merge_fileid ∙ b.present)
              (AllPresent-kept c.files c1.files c.stats (λ i h. named i ∙ h) b.between.present);
        all_moved = (
          entry-IsMoved,
          AllMoved-Grows x s c.files c1.files c.merge_fileid c.merge_fileid c.moved grows
              (omega arith) b.between.all_moved,
        );
      };
      above = b.above;
      present = named c.merge_fileid ∙ b.present;
      at_pos =
          moved_to-pos
          ∙ sym (
              ap length here
              ∙ length-append (data_of c.files c.merge_fileid) bs
              ∙ ap (λ n. n + length bs) (sym b.at_pos));
      hint_file = b.hint_file;
    }
