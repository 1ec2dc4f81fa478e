-- ===== src/Storage/Bitcask/Store/Append.antt =====
-- The append of a record keeps the invariant, and the entry that `write` returns points at the record.
use opal.Prelude.{
  ℕ, ◌+◌, ◌≤◌, ◌<◌, ◌≡◌, refl, sym, ap, ◌∙◌, true, Option, some, List, [], ◌∷◌, ◌++◌, length,
  length-append, take, drop, ◌==◌, if◌then◌else◌, arith, dec_le, ℕ_discrete,
}
use opal.Env.{Bytes}
use opal.Storage.Bitcask.Data.{DataFileEntry, KeyDirEntry, u64_size, add_u64}
use opal.Storage.Bitcask.Crates.{Crates, IsLawful, LogReader}
use opal.Storage.Bitcask.Files.{data_of, data_of-append, exists_in-append}
use opal.Prelude.Int.{ℤ}
use opal.Storage.Bitcask.Store.{Store, appended}
use opal.Storage.Bitcask.Store.Growth.{Grows, Grows-append, slice-new, IsRecord-Grows}
use opal.Storage.Bitcask.Store.Located.{record_at, IsRecord, AllSound, IsValid}

unfoldable pub Bytes-discrete : Discrete Bytes
Bytes-discrete = hlevel ℕ_discrete

-- No reader has mapped more than `pos` bytes of the file.
abbrev pub AllBehind : (x : Crates) → ℕ → ℕ → List x.Cache → Type 0
AllBehind x fileid pos [] = Unit
AllBehind x fileid pos (c ∷ cs) =
    ((r : LogReader) → x.peek c fileid ≡ some r → r.mapped ≤ pos) × AllBehind x fileid pos cs

module _ (x : Crates) (s : Store x) (v : IsValid x s) where
  pub fileid-le :
      (k : Bytes) (e : KeyDirEntry) → x.get s.keydir k ≡ some e → e.fileid ≤ s.active_fileid
  fileid-le k e h = elim (dec_le e.fileid s.active_fileid) [
    | yes p ↦ p
    | no p ↦ cc ((v.entries k e h).present, v.fresh e.fileid (omega arith))
  ]

  pub sound-AllBehind :
      (cs : List x.Cache) → AllSound x s cs → AllBehind x s.active_fileid s.writer.pos cs
  sound-AllBehind [] h = tt
  sound-AllBehind (c ∷ cs) h =
      (λ r p. rw v.at_end (h.0.within s.active_fileid r p), sound-AllBehind cs h.1)

  -- A state with more in its files and the same keys and readers keeps what was known of them.
  module _ (t : Store x) (keys : t.keydir ≡ s.keydir) (later : s.active_fileid ≤ t.active_fileid)
      (g : Grows s.active_fileid s.files t.files) where
    pub entries-Grows :
        (k : Bytes) (e : KeyDirEntry) → x.get t.keydir k ≡ some e → IsRecord x t.files k e
    entries-Grows k e h =
        let h' : x.get s.keydir k ≡ some e = rw keys at h in
        IsRecord-Grows x g k e (fileid-le k e h') (v.entries k e h')

    pub sound-Grows : (cs : List x.Cache) → AllSound x s cs → AllSound x t cs
    sound-Grows [] h = tt
    sound-Grows (c ∷ cs) h = (
      record {
        within = λ i r p.
            let q = g.grown i (h.0.known i r p) in
            omega
              (arith, h.0.within i r p, ap length q, length-append (data_of s.files i) (g.more i));
        known = λ i r p. omega (arith, h.0.known i r p);
        clears = λ i r k e p q. h.0.clears i r k e p (rw keys at q);
      },
      sound-Grows cs h.1,
    )

-- Room for the bytes of one more record, and for one more file id.
pub record Fits (x : Crates) (s : Store x) (d : DataFileEntry) : Type 0 where
  pub room : length (data_of s.files s.active_fileid) + length (x.serialize d) < u64_size
  pub next_id : s.active_fileid + 1 < u64_size

abbrev pub written : ℤ → Bytes → Option Bytes → DataFileEntry
written now key value = record { tstamp = now; key = key; value = value }

module _ (x : Crates) (s : Store x) (now : ℤ) (key : Bytes) (value : Option Bytes) where
  -- The state behind the append, and the entry that `write` returns.
  abbrev pub after : Store x
  after = (appended now key value s).1

  abbrev pub entry : KeyDirEntry
  entry =
      let index = (appended now key value s).0 in
      record { fileid = s.active_fileid; len = index.len; pos = index.pos; tstamp = now }

module _ (x : Crates) (s : Store x) (v : IsValid x s) (now : ℤ) (key : Bytes)
    (value : Option Bytes) where
  module _ (fits : Fits x s (written now key value)) where
    pub after-Grows : Grows s.active_fileid s.files (after x s now key value).files
    unfolding appended
    after-Grows =
        Grows-append s.active_fileid s.files s.writer.file s.active_fileid
          (x.serialize (written now key value)) v.writes_active v.active_exists

    pub after_data :
        (i : ℕ)
        → data_of (after x s now key value).files i ≡ (
            if s.active_fileid == i
            then data_of s.files s.active_fileid ++ x.serialize (written now key value)
            else data_of s.files i)
    unfolding appended
    after_data i =
        data_of-append s.files s.writer.file s.active_fileid i (x.serialize (written now key value))
          v.writes_active v.active_exists

    pub active_data :
        data_of (after x s now key value).files s.active_fileid
        ≡ data_of s.files s.active_fileid ++ x.serialize (written now key value)
    active_data =
        let same : (s.active_fileid == s.active_fileid) ≡ true = ground arith in
        rw same at (after_data s.active_fileid)

    end_lem :
        add_u64 s.writer.pos (length (x.serialize (written now key value)))
        ≡ length (data_of s.files s.active_fileid) + length (x.serialize (written now key value))
    end_lem = omega (arith, v.at_end, fits.room)

    pub after-IsValid : IsValid x (after x s now key value)
    unfolding appended
    after-IsValid = record {
      entries = entries-Grows x s v (after x s now key value) refl (omega arith) after-Grows;
      writes_active = v.writes_active;
      active_exists = after-Grows.kept s.active_fileid v.active_exists;
      at_end =
          end_lem
          ∙ sym (
              ap length active_data
              ∙ length-append (data_of s.files s.active_fileid)
                  (x.serialize (written now key value)));
      fresh = λ i h.
          exists_in-append s.files s.writer.file s.active_fileid i
            (x.serialize (written now key value)) v.writes_active
          ∙ v.fresh i h;
      small = λ i. ground (
        arith,
        ap length (after_data i),
        length-append (data_of s.files s.active_fileid) (x.serialize (written now key value)),
        v.small i,
        fits.room,
      );
      sound =
          sound-Grows x s v (after x s now key value) refl (omega arith) after-Grows s.readers
            v.sound;
    }

    pub entry_place :
        ((entry x s now key value).pos ≡ length (data_of s.files s.active_fileid))
        × ((entry x s now key value).len ≡ length (x.serialize (written now key value)))
        × (data_of (after x s now key value).files s.active_fileid
            ≡ data_of s.files s.active_fileid ++ x.serialize (written now key value))
    unfolding appended
    entry_place = (
      v.at_end,
      omega (arith, end_lem, v.at_end, fits.room, v.small s.active_fileid),
      active_data,
    )

    -- `write` returns an entry for the record that it appended.
    pub entry-record_at :
        (laws : IsLawful x)
        → record_at x (after x s now key value).files (entry x s now key value)
          ≡ some (written now key value)
    unfolding record_at
    entry-record_at laws =
        let (p, q, r) = entry_place in
        ap
          (λ bs.
            x.deserialize
              (take (entry x s now key value).len (drop (entry x s now key value).pos bs)))
          r
        ∙ ap x.deserialize (
            slice-new (data_of s.files s.active_fileid) (x.serialize (written now key value))
              (entry x s now key value).len (entry x s now key value).pos p q)
        ∙ laws.deserialize-serialize (written now key value)

    pub entry-inside :
        (entry x s now key value).pos + (entry x s now key value).len
        ≤ length (data_of (after x s now key value).files (entry x s now key value).fileid)
    entry-inside =
        let (p, q, r) = entry_place in
        omega (
          arith,
          p,
          q,
          ap length r,
          length-append (data_of s.files s.active_fileid) (x.serialize (written now key value)),
        )

    pub entry-IsRecord :
        IsLawful x
        → (w : Bytes) → value ≡ some w
        → IsRecord x (after x s now key value).files key (entry x s now key value)
    entry-IsRecord laws w h = record {
      inside = entry-inside;
      present = after-Grows.kept s.active_fileid v.active_exists;
      holds = ((written now key value), w, entry-record_at laws, refl, h);
    }
