-- ===== src/Storage/Bitcask/Merge/Triggers.antt =====
-- When `can_merge` of writer.rs lets a merge happen, said without its code.
use opal.Prelude.{
  ℕ, ◌≤◌, ◌<◌, ◌≡◌, ◌↔◌, ◌⊎◌, inl, inr, refl, ◌∙◌, length, some, sym, subst, true, false, Bool,
  ◌||◌, List, [], ◌∷◌, ltb, ◌==◌, if◌then◌else◌, arith, Bool-cases,
}
use opal.Storage.Bitcask.Data.{add_u64}
use opal.Storage.Bitcask.Config.{
  Floats, MergePolicy, always, never, window, MergeStrategy, MergeTriggers, MergeThresholds,
}
use opal.Storage.Bitcask.Files.{Files, data_of}
use opal.Storage.Bitcask.Stats.{Stats, LogStatistics}
use opal.Storage.Bitcask.Recovery.{into_set}
use opal.Storage.Bitcask.Merge.Present.{AllPresent}
use opal.Storage.Bitcask.Merge.{
  Compares, fragmentation, outside, any_triggered, can_merge, selected, fileids_to_merge, contains,
}

-- A window holds its first and its last hour; without a policy there is no hour to merge.
abbrev pub InHours : ℕ → MergePolicy → Type 0
InHours hour always = Unit
InHours hour never = ⊥
InHours hour (window start end) = (start ≤ hour) × (hour ≤ end)

pub contains-into_set :
    (i j : ℕ) (js : List ℕ) → contains i (into_set j js) ≡ ((i == j) || contains i js)
unfolding into_set contains
contains-into_set i j [] = refl
contains-into_set i j (k ∷ js) = ground (arith, contains-into_set i j js)

or_iff : (a b : Bool) → (a || b ≡ true) ↔ ((a ≡ true) ⊎ (b ≡ true))
or_iff true b = (λ h. inl refl, λ h. refl)
or_iff false b = (λ h. inr h, λ h. elim h [ inl z ↦ absurd (ground (arith, z)) | inr z ↦ z ])

module _ (fl : Floats) (cf : Compares fl) where
  -- Without dead keys the fragmentation of a file is 0, else it is their share.
  abbrev pub IsFragmentation : LogStatistics → fl.Float → Type 0
  IsFragmentation s f =
      ((s.dead_keys ≡ 0) × (f ≡ fl.tenths 0))
      ⊎ ((0 < s.dead_keys) × (f ≡ cf.quotient s.dead_keys (add_u64 s.dead_keys s.live_keys)))

  -- More dead bytes than these, or a greater fragmentation than this.
  abbrev pub IsOver : ℕ → fl.Float → LogStatistics → Type 0
  IsOver dead_bytes share s =
      (dead_bytes < s.dead_bytes) ⊎ ((f : fl.Float) × IsFragmentation s f × (cf.gt f share ≡ true))

  abbrev pub AnyOver : MergeTriggers fl → Stats → Type 0
  AnyOver t [] = ⊥
  AnyOver t ((_, s) ∷ stats) = IsOver t.dead_bytes t.fragmentation s ⊎ AnyOver t stats

  -- The hour is one to merge in, and some file is over a trigger.
  abbrev pub IsTriggered : ℕ → MergeStrategy fl → Stats → Type 0
  IsTriggered hour m stats = InHours hour m.policy × AnyOver m.triggers stats

  fragmentation-IsFragmentation :
      (s : LogStatistics) (f : fl.Float) → (f ≡ fragmentation fl cf s) ↔ IsFragmentation s f
  unfolding fragmentation
  fragmentation-IsFragmentation s f = elim (Bool-cases (s.dead_keys == 0)) [
    | inl h ↦ (
      λ e. inl (ground (arith, h), rw (e, h) refl),
      λ d. elim d [
        | inl z ↦ rw (z.1, h) refl
        | inr p ↦ absurd (let q = p.0 in ground (arith, h, q))
      ],
    )
    | inr h ↦ (
      λ e. inr (ground (arith, h), rw (e, h) refl),
      λ d. elim d [
        | inl z ↦ absurd (let q = z.0 in ground (arith, h, q))
        | inr p ↦ rw (p.1, h) refl
      ],
    )
  ]

  outside_iff : (hour : ℕ) (p : MergePolicy) → (outside fl cf hour p ≡ false) ↔ InHours hour p
  outside_iff hour always = (λ h. tt, λ h. refl)
  outside_iff hour never = (λ h. absurd (ground (arith, h)), λ h. absurd h)
  outside_iff hour (window start end) =
      (λ h. (ground (arith, h), ground (arith, h)), λ h. ground (arith, h))

  ltb_or_gt_iff :
      (dead_bytes : ℕ) (share : fl.Float) (s : LogStatistics)
      → (ltb dead_bytes s.dead_bytes || cf.gt (fragmentation fl cf s) share ≡ true)
        ↔ IsOver dead_bytes share s
  ltb_or_gt_iff dead_bytes share s =
      let o = or_iff (ltb dead_bytes s.dead_bytes) (cf.gt (fragmentation fl cf s) share) in
      (
        λ h. elim (o.0 h) [
          | inl l ↦ inl (ground (arith, l))
          | inr g ↦ inr (fragmentation fl cf s, (fragmentation-IsFragmentation s _).0 refl, g)
        ],
        λ d. o.1 (elim d [
          | inl l ↦ inl (ground (arith, l))
          | inr (f, i, g) ↦ inr (
              let e = (fragmentation-IsFragmentation s f).1 i in
              subst (λ z. cf.gt z share ≡ true) e g)
        ]),
      )

  any_triggered_iff :
      (t : MergeTriggers fl) (stats : Stats)
      → (any_triggered fl cf t stats ≡ true) ↔ AnyOver t stats
  unfolding any_triggered
  any_triggered_iff t [] = (λ h. absurd (ground (arith, h)), λ h. absurd h)
  any_triggered_iff t ((i, s) ∷ stats) =
      let o =
        or_iff (ltb t.dead_bytes s.dead_bytes || cf.gt (fragmentation fl cf s) t.fragmentation)
          (any_triggered fl cf t stats) in
      (
        λ h. elim (o.0 h) [
          | inl z ↦ inl ((ltb_or_gt_iff t.dead_bytes t.fragmentation s).0 z)
          | inr z ↦ inr ((any_triggered_iff t stats).0 z)
        ],
        λ d. o.1 (elim d [
          | inl z ↦ inl ((ltb_or_gt_iff t.dead_bytes t.fragmentation s).1 z)
          | inr z ↦ inr ((any_triggered_iff t stats).1 z)
        ]),
      )

  -- `can_merge` allows a merge exactly when the hour is one to merge in and some file is over a trigger.
  pub can_merge_iff :
      (hour : ℕ) (m : MergeStrategy fl) (stats : Stats)
      → (can_merge fl cf hour m stats ≡ true) ↔ IsTriggered hour m stats
  unfolding can_merge
  can_merge_iff hour m stats = elim (Bool-cases (outside fl cf hour m.policy)) [
    | inl h ↦ (
      λ e. absurd (ground (arith, h, e)),
      λ d. absurd (let q = (outside_iff hour m.policy).1 d.0 in ground (arith, h, q)),
    )
    | inr h ↦ (
      λ e. (
        (outside_iff hour m.policy).0 h,
        (any_triggered_iff m.triggers stats).0 (ground (arith, h, e)),
      ),
      λ d. rw h ((any_triggered_iff m.triggers stats).1 d.1),
    )
  ]

  -- A file that the statistics name is chosen when it is over the thresholds or small.
  abbrev pub IsChosen : MergeThresholds fl → Files → ℕ → Stats → Type 0
  IsChosen t fs i [] = ⊥
  IsChosen t fs i ((j, s) ∷ stats) =
      ((i ≡ j) × (IsOver t.dead_bytes t.fragmentation s ⊎ (length (data_of fs j) < t.small_file)))
      ⊎ IsChosen t fs i stats

  selected_iff :
      (t : MergeThresholds fl) (s : LogStatistics) (size : ℕ)
      → (selected fl cf t s size ≡ true)
        ↔ (IsOver t.dead_bytes t.fragmentation s ⊎ (size < t.small_file))
  selected_iff t s size =
      let o =
        or_iff (ltb t.dead_bytes s.dead_bytes || cf.gt (fragmentation fl cf s) t.fragmentation)
          (ltb size t.small_file) in
      (
        λ h. elim (o.0 h) [
          | inl z ↦ inl ((ltb_or_gt_iff t.dead_bytes t.fragmentation s).0 z)
          | inr z ↦ inr (ground (arith, z))
        ],
        λ d. o.1 (elim d [
          | inl z ↦ inl ((ltb_or_gt_iff t.dead_bytes t.fragmentation s).1 z)
          | inr z ↦ inr (ground (arith, z))
        ]),
      )

  -- One more file, with its test.
  insert_iff :
      (b : Bool) (P Q : Type 0) (i j : ℕ) (ids : List ℕ)
      → (b ≡ true) ↔ P
      → (contains i ids ≡ true) ↔ Q
      → (contains i (if b then into_set j ids else ids) ≡ true) ↔ (((i ≡ j) × P) ⊎ Q)
  insert_iff false P Q i j ids p q = (
    λ h. inr (q.0 h),
    λ d. elim d [ inl z ↦ absurd (let f = p.1 z.1 in ground (arith, f)) | inr z ↦ q.1 z ],
  )
  insert_iff true P Q i j ids p q =
      let o = or_iff (i == j) (contains i ids) in
      (
        λ h. elim (o.0 (sym (contains-into_set i j ids) ∙ h)) [
          | inl z ↦ inl (ground (arith, z), p.0 refl)
          | inr z ↦ inr (q.0 z)
        ],
        λ d.
            contains-into_set i j ids
            ∙ o.1 (elim d [
              | inl z ↦ inl (let same = z.0 in ground (arith, same))
              | inr z ↦ inr (q.1 z)
            ]),
      )

  -- With all files there, the files to merge are found, and they are those that are chosen.
  pub fileids_to_merge-IsChosen :
      (t : MergeThresholds fl) (fs : Files) (stats : Stats)
      → AllPresent fs stats
      → (ids : List ℕ) × (fileids_to_merge fl cf t fs stats ≡ some ids)
        × ((i : ℕ) → (contains i ids ≡ true) ↔ IsChosen t fs i stats)
  unfolding fileids_to_merge contains
  fileids_to_merge-IsChosen t fs [] h =
      ([], refl, λ i. (λ c. absurd (ground (arith, c)), λ d. absurd d))
  fileids_to_merge-IsChosen t fs ((j, s) ∷ stats) h =
      let (ids, eq, p) = fileids_to_merge-IsChosen t fs stats h.1 in
      let b = selected fl cf t s (length (data_of fs j)) in
      (
        if b then into_set j ids else ids,
        rw h.0 (rw eq refl),
        λ i. insert_iff b _ _ i j ids (selected_iff t s (length (data_of fs j))) (p i),
      )
