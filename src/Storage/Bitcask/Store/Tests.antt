-- ===== src/Storage/Bitcask/Store/Tests.antt =====
-- Calls on a store with one empty data file.
use opal.Prelude.{ℕ_discrete, ◌≡◌, ◌≢◌, refl, true, false, none, some, List, [], ◌∷◌, length, arith}
use opal.Prelude.Int.{pos}
use opal.Env.{Bytes}
use opal.Storage.Bitcask.Files.{created, data_of}
use opal.Storage.Bitcask.Store.{Store, ok, put, delete, get, is_some}
use opal.Storage.Bitcask.Store.Toy.{toy, toy-IsLawful}
use opal.Storage.Bitcask.Store.Fresh.{store, store-IsValid}
use opal.Storage.Bitcask.Store.Located.{view, IsValid}
use opal.Storage.Bitcask.Store.Append.{written, Fits, Bytes-discrete}
use opal.Storage.Bitcask.Store.Put.{Continues, put-stores, delete-removes}
use opal.Storage.Bitcask.Store.Get.{get-view}
use opal.Storage.Bitcask.Store.Session.{
  Call, put_of, delete_of, get_of, done, existed, found, expect_all, call_all, IsReady,
  call_all-expect_all,
}

abbrev key : Bytes
key = 107 ∷ []

abbrev value : Bytes
value = 118 ∷ 119 ∷ []

store-Fits : Fits toy store (written (pos 2) key (some value))
unfolding created
store-Fits = record { room = omega arith; next_id = omega arith }

put-stores_example :
    (t : Store toy) × (put (pos 2) key value store ≡ ok tt t)
    × Continues toy store t (written (pos 2) key (some value))
    × (view toy t key ≡ some value)
    × ((j : Bytes) → key ≢ j → view toy t j ≡ view toy store j)
put-stores_example =
    put-stores toy toy-IsLawful store store-IsValid refl (pos 2) key value store-Fits

abbrev after_put : Store toy
after_put = (put-stores toy toy-IsLawful store store-IsValid refl (pos 2) key value store-Fits).0

after_put-Continues : Continues toy store after_put (written (pos 2) key (some value))
after_put-Continues =
    (put-stores toy toy-IsLawful store store-IsValid refl (pos 2) key value store-Fits).2

store_empty : length (data_of store.files 1) ≡ 0
unfolding created
store_empty = refl

after_put-Fits : Fits toy after_put (written (pos 3) key none)
after_put-Fits =
    let c = after_put-Continues in
    record { room = omega (arith, c.bounded, store_empty); next_id = omega (arith, c.next) }

delete-removes_example :
    (t : Store toy) × (delete (pos 3) key after_put ≡ ok (is_some (toy.get after_put.keydir key)) t)
    × Continues toy after_put t (written (pos 3) key none)
    × (view toy t key ≡ none)
    × ((j : Bytes) → key ≢ j → view toy t j ≡ view toy after_put j)
delete-removes_example =
    let c = after_put-Continues in
    delete-removes toy toy-IsLawful after_put c.valid c.same_closed (pos 3) key after_put-Fits

get-view_example :
    (c : toy.Cache) × (get key after_put
      ≡ ok (view toy after_put key) (record after_put { readers = (λ i. none) ∷ c ∷ [] }))
    × IsValid toy (record after_put { readers = (λ i. none) ∷ c ∷ [] })
get-view_example =
    let c = after_put-Continues in
    get-view toy toy-IsLawful after_put c.valid c.same_closed key (λ i. none) ((λ i. none) ∷ [])
      c.same_readers

abbrev calls : List Call
calls =
    put_of (pos 2) key value
    ∷ get_of key
    ∷ delete_of (pos 4) key
    ∷ get_of key
    ∷ delete_of (pos 5) key
    ∷ []

store-IsReady : IsReady toy store 5 34
unfolding created
store-IsReady = record {
  valid = store-IsValid;
  is_open = refl;
  reader = (λ i. none, (λ i. none) ∷ [], refl);
  room = omega arith;
  ids = omega arith;
}

call_all-expect_all_example :
    (t : Store toy) × (call_all toy calls store
      ≡ ok (done ∷ found (some value) ∷ existed true ∷ found none ∷ existed false ∷ []) t)
    × IsValid toy t
    × ((j : Bytes) → view toy t j ≡ (expect_all calls (λ k. none)).1 j)
unfolding expect_all Bytes-discrete ℕ_discrete
call_all-expect_all_example =
    call_all-expect_all toy toy-IsLawful calls store (λ k. none) store-IsReady (λ j. refl)
