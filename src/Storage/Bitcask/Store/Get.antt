-- ===== src/Storage/Bitcask/Store/Get.antt =====
-- `Handle::get`: it returns what the store holds and changes the readers only.
use opal.Prelude.{◌≡◌, inl, inr, subst, refl, false, List, [], ◌∷◌, ◌++◌, arith, Option-cases}
use opal.Env.{Bytes}
use opal.Storage.Bitcask.Crates.{Crates, IsLawful}
use opal.Storage.Bitcask.Store.{Store, ok, get, reader_get}
use opal.Storage.Bitcask.Store.Located.{IsSound, AllSound, IsValid, view}
use opal.Storage.Bitcask.Store.Growth.{Grows-refl}
use opal.Storage.Bitcask.Store.Append.{sound-Grows}
use opal.Storage.Bitcask.Store.Mapping.{read-IsSound}

module _ (x : Crates) (laws : IsLawful x) (s : Store x) (v : IsValid x s) where
  AllSound-append :
      (cs : List x.Cache) (c : x.Cache)
      → AllSound x s cs
      → IsSound x s c
      → AllSound x s (cs ++ c ∷ [])
  AllSound-append [] c h i = (i, tt)
  AllSound-append (d ∷ cs) c h i = (h.0, AllSound-append cs c h.1 i)

  abbrev reading : List x.Cache → Store x
  reading cs = record s { readers = cs }

  reading-IsValid : (cs : List x.Cache) → AllSound x s cs → IsValid x (reading cs)
  reading-IsValid cs h = record {
    entries = v.entries;
    writes_active = v.writes_active;
    active_exists = v.active_exists;
    at_end = v.at_end;
    fresh = v.fresh;
    small = v.small;
    sound =
        sound-Grows x s v (reading cs) refl (omega arith) (Grows-refl s.active_fileid s.files) cs h;
  }

  reader_get-view :
      (key : Bytes) (c : x.Cache) (others : List x.Cache)
      → IsSound x s c
      → (c' : x.Cache) × (reader_get key c others s
          ≡ ok (view x s key) (reading (others ++ c' ∷ [])))
        × IsSound x s c'
  unfolding reader_get
  reader_get-view key c others h = elim (Option-cases (x.get s.keydir key)) [
    | inl p ↦ (c, rw (p, reader_get) refl, h)
    | inr (e, p) ↦
        (let (d, w, at, _, value) = (v.entries key e p).holds in
          let (c', eq, sound) = read-IsSound x s v key e d p at laws c h in
          (c', rw (p, reader_get) (rw eq (rw at refl)), sound))
  ]

  -- A get from an open store that satisfies the invariant, with a reader in the queue, succeeds and
  -- returns what the store holds under the key; only the queue of readers changes, by the first reader
  -- going to the end, and the state satisfies the invariant again.
  pub get-view :
      s.closed ≡ false
      → (key : Bytes) (c : x.Cache) (others : List x.Cache) → s.readers ≡ c ∷ others
      → (c' : x.Cache) × (get key s ≡ ok (view x s key) (reading (others ++ c' ∷ [])))
        × IsValid x (reading (others ++ c' ∷ []))
  unfolding get
  get-view open_store key c others h =
      let sound = subst (λ cs. AllSound x s cs) h v.sound in
      let (c', eq, i) = reader_get-view key c others sound.0 in
      (
        c',
        simp (h, eq, open_store),
        reading-IsValid (others ++ c' ∷ []) (AllSound-append others c' sound.1 i),
      )
