-- ===== src/Storage/Bitcask/Store/Entry.antt =====
-- What a put or a delete does behind the append keeps the invariant.
use opal.Prelude.{
  Option-cases, ℕ, ◌≤◌, ◌≡◌, inl, inr, refl, sym, ap, ◌∙◌, subst, none, some, List, [], ◌∷◌, arith,
}
use opal.Env.{Bytes}
use opal.Storage.Bitcask.Data.{KeyDirEntry}
use opal.Storage.Bitcask.Crates.{Crates, IsLawful, LogReader}
use opal.Storage.Bitcask.Files.{Files}
use opal.Storage.Bitcask.Stats.{Stats}
use opal.Storage.Bitcask.Store.{Store}
use opal.Storage.Bitcask.Store.Growth.{Grows, record_at-Grows}
use opal.Storage.Bitcask.Store.Located.{
  value_at, value_in, view, IsRecord, IsSound, AllSound, IsValid, Clears,
}
use opal.Storage.Bitcask.Store.Append.{fileid-le, AllBehind, Bytes-discrete}

module _ (x : Crates) (s : Store x) (v : IsValid x s) where
  pub value_at-Grows :
      (fs : Files) (j : Bytes)
      → Grows s.active_fileid s.files fs
      → value_at x fs (x.get s.keydir j) ≡ view x s j
  value_at-Grows fs j g = elim (Option-cases (x.get s.keydir j)) [
    | inl h ↦ rw h refl
    | inr (e, h) ↦
        rw h
          (ap (value_in x) (record_at-Grows x g e (fileid-le x s v j e h) (v.entries j e h).inside))
  ]

-- What a put or a delete changes behind the append: the key directory and the statistics.
module _ (x : Crates) (s : Store x) (key : Bytes) (stats : Stats) where
  abbrev pub with_entry : KeyDirEntry → Store x
  with_entry e = record s { keydir = x.insert s.keydir key e; stats = stats }

  abbrev pub without_entry : Store x
  without_entry = record s { keydir = x.remove s.keydir key; stats = stats }

module _ (x : Crates) (laws : IsLawful x) (s : Store x) (v : IsValid x s) (key : Bytes)
    (stats : Stats) where
  with_new :
      (e : KeyDirEntry) (c : x.Cache)
      → IsSound x s c
      → ((r : LogReader) → x.peek c e.fileid ≡ some r → r.mapped ≤ e.pos)
      → (i : ℕ) (r : LogReader) (k : Bytes) (f : KeyDirEntry) → key ≡ k
      → x.peek c i ≡ some r
      → x.get (x.insert s.keydir key e) k ≡ some f
      → f.fileid ≡ i
      → Clears x r.mapped f
  with_new e c h b i r k f same p q w =
      let q' = subst (λ j. x.get (x.insert s.keydir key e) j ≡ some f) (sym same) q in
      let ef : e ≡ f = cc (laws.get-insert_self s.keydir key e, q') in
      let there = ap (λ z. x.peek c z) (ap KeyDirEntry.fileid ef ∙ w) ∙ p in
      let at = ap KeyDirEntry.pos ef in inr (omega (arith, b r there, at))

  with_entry-AllSound :
      (e : KeyDirEntry) (cs : List x.Cache)
      → AllSound x s cs
      → AllBehind x e.fileid e.pos cs
      → AllSound x (with_entry x s key stats e) cs
  with_entry-AllSound e [] h b = tt
  with_entry-AllSound e (c ∷ cs) h b = (
    record {
      within = h.0.within;
      known = h.0.known;
      clears = λ i r k f p q w. elim (Bytes-discrete key k) [
        | yes same ↦ with_new e c h.0 b.0 i r k f same p q w
        | no other ↦ h.0.clears i r k f p (sym (laws.get-insert_ne s.keydir key k e other) ∙ q) w
      ];
    },
    with_entry-AllSound e cs h.1 b.1,
  )

  with_entry-entries :
      (e : KeyDirEntry)
      → IsRecord x s.files key e
      → (k : Bytes) (f : KeyDirEntry) → x.get (x.insert s.keydir key e) k ≡ some f
      → IsRecord x s.files k f
  with_entry-entries e r k f q = elim (Bytes-discrete key k) [
    | yes same ↦
        (let q' = subst (λ j. x.get (x.insert s.keydir key e) j ≡ some f) (sym same) q in
          let ef : e ≡ f = cc (laws.get-insert_self s.keydir key e, q') in
          subst (λ j. IsRecord x s.files j f) same (subst (λ g. IsRecord x s.files key g) ef r))
    | no other ↦ v.entries k f (sym (laws.get-insert_ne s.keydir key k e other) ∙ q)
  ]

  pub with_entry-IsValid :
      (e : KeyDirEntry)
      → IsRecord x s.files key e
      → AllBehind x e.fileid e.pos s.readers
      → IsValid x (with_entry x s key stats e)
  with_entry-IsValid e r b = record {
    entries = with_entry-entries e r;
    writes_active = v.writes_active;
    active_exists = v.active_exists;
    at_end = v.at_end;
    fresh = v.fresh;
    small = v.small;
    sound = with_entry-AllSound e s.readers v.sound b;
  }

  kept :
      (k : Bytes) (f : KeyDirEntry)
      → x.get (x.remove s.keydir key) k ≡ some f
      → x.get s.keydir k ≡ some f
  kept k f q = elim (Bytes-discrete key k) [
    | yes same ↦ cc (
      subst (λ j. x.get (x.remove s.keydir key) j ≡ none) same (laws.get-remove_self s.keydir key),
      q,
    )
    | no other ↦ sym (laws.get-remove_ne s.keydir key k other) ∙ q
  ]

  without_entry-AllSound :
      (cs : List x.Cache) → AllSound x s cs → AllSound x (without_entry x s key stats) cs
  without_entry-AllSound [] h = tt
  without_entry-AllSound (c ∷ cs) h = (
    record {
      within = h.0.within;
      known = h.0.known;
      clears = λ i r k f p q w. h.0.clears i r k f p (kept k f q) w;
    },
    without_entry-AllSound cs h.1,
  )

  pub without_entry-IsValid : IsValid x (without_entry x s key stats)
  without_entry-IsValid = record {
    entries = λ k f q. v.entries k f (kept k f q);
    writes_active = v.writes_active;
    active_exists = v.active_exists;
    at_end = v.at_end;
    fresh = v.fresh;
    small = v.small;
    sound = without_entry-AllSound s.readers v.sound;
  }
