-- ===== src/Storage/Bitcask/Recovery/Survive.antt =====
-- What a store holds survives its end: `Writer::drop` or a crash, and then `Bitcask::open`.
use opal.Prelude.{
  ℕ, ◌+◌, ◌<◌, ◌≡◌, inl, inr, refl, sym, ap, ◌∙◌, subst, List, [], append-nil, length, ◌==◌, arith,
  Bool-cases,
}
use opal.Env.{Bytes}
use opal.Storage.Bitcask.Data.{Config, u64_size}
use opal.Storage.Bitcask.Crates.{Crates, IsLawful}
use opal.Storage.Bitcask.Files.{
  FileName, data_of, append, data_of-append, exists_in-append, hint_in-append,
}
use opal.Storage.Bitcask.Store.{Store, ok}
use opal.Storage.Bitcask.Store.Located.{view, IsValid}
use opal.Storage.Bitcask.Store.Session.{Call, Reply, Contents, expect_all, call_all, costs, IsReady}
use opal.Storage.Bitcask.Recovery.{Streams, eof, opened, open_storage, drop_writer}
use opal.Storage.Bitcask.Recovery.Replay.{IsStream}
use opal.Storage.Bitcask.Recovery.Logged.{whole}
use opal.Storage.Bitcask.Recovery.Kept.{IsDurable}
use opal.Storage.Bitcask.Recovery.Calls.{call_all-IsDurable}
use opal.Storage.Bitcask.Recovery.Reopen.{IsReopened, open_storage-IsReopened}
use opal.Storage.Bitcask.Recovery.Left.{Lists, left_whole, left_older}

module _ (x : Crates) (laws : IsLawful x) (st : Streams x) (io_laws : IsStream x st) (conf : Config)
    (concurrency : ℕ) (s : Store x) (v : IsValid x s) (durable : IsDurable x st s)
    (next : s.active_fileid + 1 < u64_size) (names : List FileName) where
  -- When a valid store whose files say what is in memory goes away, which removes an active file that
  -- nothing was written to, opening the directory succeeds: the storage is valid, open, holds under every
  -- key what the store held, has its statistics and as many readers as the configuration says, and its
  -- files say again what is in memory.
  pub open_storage-drop_writer :
      Lists (drop_writer s) names
      → (t : Store x) × (open_storage st conf concurrency (drop_writer s) names ≡ opened t)
        × IsReopened x st s t conf concurrency
  unfolding drop_writer
  open_storage-drop_writer l =
      let (older, ds, g) = durable in
      elim (Bool-cases (s.written_bytes == 0)) [
        | inl e ↦ rw e (
            open_storage-IsReopened x laws st io_laws conf concurrency s v _ names older (
              left_older x st s v next older ds g io_laws laws (ground (arith, e)) names
                (rw e at l)))
        | inr e ↦ rw e (
            open_storage-IsReopened x laws st io_laws conf concurrency s v _ names
              (whole x s older ds)
              (left_whole x st s v next older ds g s.files [] io_laws.data_from-nil
                (λ i. ground (arith, append-nil (data_of s.files s.active_fileid))) (λ i. refl)
                (λ i. refl) (omega (arith, v.small s.active_fileid)) names (rw e at l)))
      ]

  -- When the process stops while it appends a record, so that an incomplete record, which `bincode`
  -- reports as the end of the file, stands behind the records of the active file, opening the directory
  -- succeeds in the same way: nothing that the store held is lost or changed.
  pub open_storage-append :
      (tail : Bytes)
      → st.data_from tail ≡ eof
      → length (data_of s.files s.active_fileid) + length tail < u64_size
      → Lists (append s.files s.writer.file tail) names
      → (t : Store x) × (open_storage st conf concurrency (append s.files s.writer.file tail) names
          ≡ opened t)
        × IsReopened x st s t conf concurrency
  open_storage-append tail stop room l =
      let (older, ds, g) = durable in
      let a = s.active_fileid in
      open_storage-IsReopened x laws st io_laws conf concurrency s v _ names (whole x s older ds) (
        left_whole x st s v next older ds g (append s.files s.writer.file tail) tail stop
          (λ i. data_of-append s.files s.writer.file a i tail v.writes_active v.active_exists)
          (λ i. exists_in-append s.files s.writer.file a i tail v.writes_active)
          (λ i. hint_in-append s.files a i s.writer.file tail v.writes_active) room names l)

module _ (x : Crates) (laws : IsLawful x) (st : Streams x) (io_laws : IsStream x st) (conf : Config)
    (concurrency : ℕ) where
  -- A run of puts, deletes and gets on a ready store whose files say what is in memory, then the end of
  -- the writer, then opening the directory again: the replies are those of a map that starts with what
  -- the store holds, and the storage holds under every key what the map has in the end, and is valid and
  -- open.
  pub call_all-open_storage :
      (cs : List Call) (s t : Store x) (m : Contents) (rs : List Reply) (names : List FileName)
      → IsReady x s (length cs + 1) (costs x cs + 0)
      → IsDurable x st s
      → ((j : Bytes) → view x s j ≡ m j)
      → call_all x cs s ≡ ok rs t
      → Lists (drop_writer t) names
      → (rs ≡ (expect_all cs m).0)
        × (u : Store x) × (open_storage st conf concurrency (drop_writer t) names ≡ opened u)
        × IsReopened x st t u conf concurrency
        × ((j : Bytes) → view x u j ≡ (expect_all cs m).1 j)
  call_all-open_storage cs s t m rs names r g h run l =
      let (t', eq, q, d, k) = call_all-IsDurable x laws st io_laws cs s m 1 0 r g h in
      let same : t' ≡ t = cc (eq, run) in
      let replies : rs ≡ (expect_all cs m).0 = cc (eq, run) in
      let next : t.active_fileid + 1 < u64_size =
        subst (λ z. z.active_fileid + 1 < u64_size) same q.ids in
      let (u, eq', i) =
        open_storage-drop_writer x laws st io_laws conf concurrency t
          (subst (IsValid x) same q.valid) (subst (IsDurable x st) same d) next names l in
      (replies, u, eq', i, λ j. i.contents j ∙ ap (λ z. view x z j) (sym same) ∙ k j)
