-- ===== src/Storage/Bitcask/Store/Session.antt =====
-- Sequences of puts, deletes and gets through one handle, against a map from keys to values.
use opal.Prelude.{
  ℕ, suc, ◌+◌, ◌<◌, ◌≡◌, ◌≢◌, ◌≤◌, refl, ap, ◌∙◌, subst, Bool, true, false, Option, none, some,
  List, [], ◌∷◌, ◌++◌, length, arith, Option-cases, inl, inr,
}
use opal.Prelude.Int.{ℤ}
use opal.Env.{Bytes}
use opal.Storage.Bitcask.Data.{DataFileEntry, u64_size}
use opal.Storage.Bitcask.Crates.{Crates, IsLawful}
use opal.Storage.Bitcask.Files.{data_of}
use opal.Storage.Bitcask.Store.{Store, Result, ok, is_some, put, delete, get, ◌>>=◌}
use opal.Storage.Bitcask.Store.Located.{IsValid, view}
use opal.Storage.Bitcask.Store.Append.{Bytes-discrete, Fits, written}
use opal.Storage.Bitcask.Store.Put.{Continues, put-stores, delete-removes}
use opal.Storage.Bitcask.Store.Get.{get-view}

-- A call of the handle; a write carries the time at which it runs.
pub data Call : Type 0 where
  put_of : ℤ → Bytes → Bytes → Call
  delete_of : ℤ → Bytes → Call
  get_of : Bytes → Call

pub data Reply : Type 0 where
  done : Reply
  existed : Bool → Reply
  found : Option Bytes → Reply

abbrev pub has : Option Bytes → Bool
has none = false
has (some _) = true

-- The map that the handle promises.
abbrev pub Contents : Type 0
Contents = Bytes → Option Bytes

abbrev pub assign : Bytes → Option Bytes → Contents → Contents
assign key value m j = elim (Bytes-discrete key j) [ yes _ ↦ value | no _ ↦ m j ]

abbrev pub expect : Call → Contents → Reply × Contents
expect (put_of _ key value) m = (done, assign key (some value) m)
expect (delete_of _ key) m = (existed (has (m key)), assign key none m)
expect (get_of key) m = (found (m key), m)

unfoldable pub expect_all : List Call → Contents → List Reply × Contents
expect_all [] m = ([], m)
expect_all (c ∷ cs) m =
    let (r, m') = expect c m in let (rs, m'') = expect_all cs m' in (r ∷ rs, m'')

module _ (x : Crates) where
  abbrev pub call : Call → Store x → Result x Reply
  call (put_of now key value) s = put now key value s >>= λ _ t. ok done t
  call (delete_of now key) s = delete now key s >>= λ b t. ok (existed b) t
  call (get_of key) s = get key s >>= λ o t. ok (found o) t

  unfoldable pub call_all : List Call → Store x → Result x (List Reply)
  call_all [] s = ok [] s
  call_all (c ∷ cs) s = call c s >>= λ r t. call_all cs t >>= λ rs u. ok (r ∷ rs) u

  -- The bytes that the calls may append to one file.
  abbrev pub cost : Call → ℕ
  cost (put_of now key value) = length (x.serialize (written now key (some value)))
  cost (delete_of now key) = length (x.serialize (written now key none))
  cost (get_of key) = 0

  abbrev pub costs : List Call → ℕ
  costs [] = 0
  costs (c ∷ cs) = cost c + costs cs

  -- An open store that satisfies the invariant, with a reader, and room for this many calls that append
  -- this many bytes.
  pub record IsReady (s : Store x) (calls bytes : ℕ) : Type 0 where
    pub valid : IsValid x s
    pub is_open : s.closed ≡ false
    pub reader : (c : x.Cache) × (cs : List x.Cache) × (s.readers ≡ c ∷ cs)
    pub room : length (data_of s.files s.active_fileid) + bytes < u64_size
    pub ids : s.active_fileid + calls < u64_size

module _ (x : Crates) (laws : IsLawful x) where
  is_some-has :
      (s : Store x) (v : IsValid x s) (k : Bytes) → is_some (x.get s.keydir k) ≡ has (view x s k)
  is_some-has s v k = elim (Option-cases (x.get s.keydir k)) [
    | inl p ↦ rw p refl
    | inr (e, p) ↦
        (let (d, w, at, _, value) = (v.entries k e p).holds in rw p (rw at (rw value refl)))
  ]

  IsReady-Continues :
      (s t : Store x) (d : DataFileEntry) (n b : ℕ)
      → IsReady x s (suc n) (length (x.serialize d) + b)
      → Continues x s t d
      → IsReady x t n b
  IsReady-Continues s t d n b r c = record {
    valid = c.valid;
    is_open = c.same_closed ∙ r.is_open;
    reader = let (h, hs, e) = r.reader in (h, hs, c.same_readers ∙ e);
    room = omega (arith, c.bounded, r.room);
    ids = omega (arith, c.next, r.ids);
  }

  assign-view :
      (s t : Store x) (key : Bytes) (value : Option Bytes) (m : Contents)
      → ((j : Bytes) → view x s j ≡ m j)
      → view x t key ≡ value
      → ((j : Bytes) → key ≢ j → view x t j ≡ view x s j)
      → (j : Bytes) → view x t j ≡ assign key value m j
  assign-view s t key value m h new old j =
      elim (Bytes-discrete key j) as (λ d. view x t j ≡ elim d [ yes _ ↦ value | no _ ↦ m j ]) [
        | yes same ↦ subst (λ i. view x t i ≡ value) same new
        | no other ↦ old j other ∙ h j
      ]

  pub IsReady-weaken :
      (s : Store x) (n n' b b' : ℕ) → n' ≤ n → b' ≤ b → IsReady x s n b → IsReady x s n' b'
  IsReady-weaken s n n' b b' p q r = record {
    valid = r.valid;
    is_open = r.is_open;
    reader = r.reader;
    room = omega (arith, r.room);
    ids = omega (arith, r.ids);
  }

  -- One call on a ready store: the reply of the map, and a store that is ready for the rest.
  module _ (s : Store x) (m : Contents) (n b : ℕ) (h : (j : Bytes) → view x s j ≡ m j) where
    pub put-assign :
        (now : ℤ) (key value : Bytes)
        → IsReady x s (suc n) (length (x.serialize (written now key (some value))) + b)
        → (t : Store x) × (put now key value s ≡ ok tt t)
          × IsReady x t n b
          × ((j : Bytes) → view x t j ≡ assign key (some value) m j)
    put-assign now key value r =
        let fits : Fits x s (written now key (some value)) = record {
          room = omega (arith, r.room);
          next_id = omega (arith, r.ids);
        } in
        let (t, eq, c, new, old) = put-stores x laws s r.valid r.is_open now key value fits in
        (t, eq, IsReady-Continues s t _ n b r c, assign-view s t key (some value) m h new old)

    pub delete-assign :
        (now : ℤ) (key : Bytes)
        → IsReady x s (suc n) (length (x.serialize (written now key none)) + b)
        → (t : Store x) × (delete now key s ≡ ok (has (m key)) t)
          × IsReady x t n b
          × ((j : Bytes) → view x t j ≡ assign key none m j)
    delete-assign now key r =
        let fits : Fits x s (written now key none) = record {
          room = omega (arith, r.room);
          next_id = omega (arith, r.ids);
        } in
        let (t, eq, c, new, old) = delete-removes x laws s r.valid r.is_open now key fits in
        let e = is_some-has s r.valid key ∙ ap has (h key) in
        (
          t,
          eq ∙ ap (λ z. ok z t) e,
          IsReady-Continues s t _ n b r c,
          assign-view s t key none m h new old,
        )

    pub get-lookup :
        (key : Bytes)
        → IsReady x s (suc n) b
        → (t : Store x) × (get key s ≡ ok (m key) t)
          × IsReady x t n b
          × ((j : Bytes) → view x t j ≡ m j)
    get-lookup key r =
        let (c, cs, e) = r.reader in
        let (c', eq, v) = get-view x laws s r.valid r.is_open key c cs e in
        let t : Store x = record s { readers = cs ++ c' ∷ [] } in
        let q : IsReady x t n b = record {
          valid = v;
          is_open = r.is_open;
          reader = nonempty cs c';
          room = omega (arith, r.room);
          ids = omega (arith, r.ids);
        } in
        (t, eq ∙ ap (λ z. ok z t) (h key), q, h)
      where
        nonempty :
            (cs : List x.Cache) (c : x.Cache)
            → (d : x.Cache) × (ds : List x.Cache) × (cs ++ c ∷ [] ≡ d ∷ ds)
        nonempty [] c = (c, [], refl)
        nonempty (d ∷ cs) c = (d, cs ++ c ∷ [], refl)

  call-expect :
      (c : Call) (s : Store x) (m : Contents) (n b : ℕ)
      → IsReady x s (suc n) (cost x c + b)
      → ((j : Bytes) → view x s j ≡ m j)
      → (t : Store x) × (call x c s ≡ ok (expect c m).0 t)
        × IsReady x t n b
        × ((j : Bytes) → view x t j ≡ (expect c m).1 j)
  call-expect (put_of now key value) s m n b r h =
      let (t, eq, q, g) = put-assign s m n b h now key value r in (t, rw eq refl, q, g)
  call-expect (delete_of now key) s m n b r h =
      let (t, eq, q, g) = delete-assign s m n b h now key r in (t, rw eq refl, q, g)
  call-expect (get_of key) s m n b r h =
      let r' : IsReady x s (suc n) b = subst (λ z. IsReady x s (suc n) z) (omega arith) r in
      let (t, eq, q, g) = get-lookup s m n b h key r' in (t, rw eq refl, q, g)

  -- Any sequence of puts, deletes and gets through a handle that is ready for it succeeds, and its
  -- replies are those of a map from keys to values that starts with what the store holds; the store is
  -- valid in the end and holds what the map then has.
  pub call_all-expect_all :
      (cs : List Call) (s : Store x) (m : Contents)
      → IsReady x s (length cs) (costs x cs)
      → ((j : Bytes) → view x s j ≡ m j)
      → (t : Store x) × (call_all x cs s ≡ ok (expect_all cs m).0 t)
        × IsValid x t
        × ((j : Bytes) → view x t j ≡ (expect_all cs m).1 j)
  unfolding call_all expect_all
  call_all-expect_all [] s m r h = (s, refl, r.valid, h)
  call_all-expect_all (c ∷ cs) s m r h =
      let (t, eq, q, g) = call-expect c s m (length cs) (costs x cs) r h in
      let (u, eq', v, k) = call_all-expect_all cs t (expect c m).1 q g in
      (u, rw eq (rw eq' refl), v, k)
