-- ===== src/Storage/Bitcask/Config/Proper.antt =====
-- The bounds of the configuration, and when the setters panic.
use opal.Prelude.{
  ℕ, ◌<◌, ◌≡◌, refl, ap, ◌∙◌, Bool, true, false, Option, none, some, List, [], ◌∷◌, ltb, arith,
  Bool-cases, Option-cases, inl, inr, ◌≤◌, sym, subst, ◌↔◌,
}
use opal.Env.{Bytes}
use opal.Storage.Bitcask.Config.{
  MergePolicy, always, never, window, MergeStrategy, Config, default_config, Setting, path,
  concurrency, readers_cache_size, max_file_size, sync, merge_policy, merge_trigger_fragmentation,
  merge_trigger_dead_bytes, merge_threshold_fragmentation, merge_threshold_dead_bytes,
  merge_threshold_small_file, merge_check_interval_ms, merge_check_jitter, asserted, hours,
  configure, configure_all, Floats, IsOrdered,
}

-- A merge window is between hours of a day.
abbrev pub InDay : MergePolicy → Type 0
InDay always = Unit
InDay never = Unit
InDay (window start end) = (start ≤ 23) × (end ≤ 23)

hours_iff : (p : MergePolicy) → (hours p ≡ true) ↔ InDay p
hours_iff always = (λ h. tt, λ h. refl)
hours_iff never = (λ h. tt, λ h. refl)
hours_iff (window start end) = (λ h. (ground (arith, h), ground (arith, h)), λ h. ground (arith, h))

module _ (fl : Floats) where
  pub record IsProper (c : Config fl) : Type 0 where
    pub readers : 0 < c.concurrency
    pub caches : 0 < c.readers_cache_size
    pub sizes : 0 < c.max_file_size
    pub window_hours : InDay c.merge.policy
    pub trigger : fl.in_unit c.merge.triggers.fragmentation ≡ true
    pub threshold : fl.in_unit c.merge.thresholds.fragmentation ≡ true
    pub jitter : fl.in_unit c.merge.check_jitter ≡ true

  abbrev pub AllProper : Option (Config fl) → Type 0
  AllProper none = Unit
  AllProper (some c) = IsProper c

  asserted-IsProper :
      (b : Bool) (c : Config fl) → (b ≡ true → IsProper c) → AllProper (asserted fl b c)
  asserted-IsProper true c h = h refl
  asserted-IsProper false c h = tt

  default_config-IsProper :
      IsOrdered fl → (dir : Bytes) (cpus : ℕ) → AllProper (default_config fl dir cpus)
  unfolding default_config
  default_config-IsProper ordered dir cpus = elim (Bool-cases (ltb 0 cpus)) [
    | inl some_cpu ↦ rw some_cpu (record {
      readers = ground arith;
      caches = omega arith;
      sizes = omega arith;
      window_hours = tt;
      trigger = ordered.in_unit-tenths 6 (omega arith);
      threshold = ordered.in_unit-tenths 4 (omega arith);
      jitter = ordered.in_unit-tenths 3 (omega arith);
    })
    | inr no_cpu ↦ rw no_cpu tt
  ]

  -- The fields that `IsProper` speaks of, changed or not.
  changed :
      (c d : Config fl)
      → IsProper c
      → (0 < c.concurrency → 0 < d.concurrency)
      → (0 < c.readers_cache_size → 0 < d.readers_cache_size)
      → (0 < c.max_file_size → 0 < d.max_file_size)
      → (d.merge ≡ c.merge)
      → IsProper d
  changed c d h p q r e = record {
    readers = p h.readers;
    caches = q h.caches;
    sizes = r h.sizes;
    window_hours = subst (λ m. InDay m.policy) (sym e) h.window_hours;
    trigger = ap (λ m. fl.in_unit m.triggers.fragmentation) e ∙ h.trigger;
    threshold = ap (λ m. fl.in_unit m.thresholds.fragmentation) e ∙ h.threshold;
    jitter = ap (λ m. fl.in_unit m.check_jitter) e ∙ h.jitter;
  }

  -- A change of the merge strategy alone.
  merge_changed :
      (c : Config fl) (m : MergeStrategy fl)
      → IsProper c
      → InDay m.policy
      → fl.in_unit m.triggers.fragmentation ≡ true
      → fl.in_unit m.thresholds.fragmentation ≡ true
      → fl.in_unit m.check_jitter ≡ true
      → IsProper (record c { merge = m })
  merge_changed c m h p q r e = record {
    readers = h.readers;
    caches = h.caches;
    sizes = h.sizes;
    window_hours = p;
    trigger = q;
    threshold = r;
    jitter = e;
  }

  configure-IsProper : (s : Setting fl) (c : Config fl) → IsProper c → AllProper (configure fl s c)
  unfolding configure
  configure-IsProper (path p) c h = changed c _ h (λ n. n) (λ n. n) (λ n. n) refl
  configure-IsProper (concurrency n l) c h = changed c _ h (λ _. l) (λ n. n) (λ n. n) refl
  configure-IsProper (readers_cache_size n l) c h = changed c _ h (λ n. n) (λ _. l) (λ n. n) refl
  configure-IsProper (max_file_size n l) c h = changed c _ h (λ n. n) (λ n. n) (λ _. l) refl
  configure-IsProper (sync s) c h = changed c _ h (λ n. n) (λ n. n) (λ n. n) refl
  configure-IsProper (merge_policy p) c h =
      asserted-IsProper (hours p) _
        λ t. merge_changed c _ h ((hours_iff p).0 t) h.trigger h.threshold h.jitter
  configure-IsProper (merge_trigger_fragmentation f) c h =
      asserted-IsProper (fl.in_unit f) _
        λ t. merge_changed c _ h h.window_hours t h.threshold h.jitter
  configure-IsProper (merge_trigger_dead_bytes n) c h =
      merge_changed c _ h h.window_hours h.trigger h.threshold h.jitter
  configure-IsProper (merge_threshold_fragmentation f) c h =
      asserted-IsProper (fl.in_unit f) _
        λ t. merge_changed c _ h h.window_hours h.trigger t h.jitter
  configure-IsProper (merge_threshold_dead_bytes n) c h =
      merge_changed c _ h h.window_hours h.trigger h.threshold h.jitter
  configure-IsProper (merge_threshold_small_file n) c h =
      merge_changed c _ h h.window_hours h.trigger h.threshold h.jitter
  configure-IsProper (merge_check_interval_ms n) c h =
      merge_changed c _ h h.window_hours h.trigger h.threshold h.jitter
  configure-IsProper (merge_check_jitter f) c h =
      asserted-IsProper (fl.in_unit f) _
        λ t. merge_changed c _ h h.window_hours h.trigger h.threshold t

  all-IsProper :
      (settings : List (Setting fl)) (o : Option (Config fl))
      → AllProper o
      → AllProper (configure_all fl settings o)
  unfolding configure_all
  all-IsProper settings none h = tt
  all-IsProper [] (some c) h = h
  all-IsProper (s ∷ settings) (some c) h =
      all-IsProper settings (configure fl s c) (configure-IsProper s c h)

  -- From the defaults, every sequence of setter calls panics or gives a configuration with positive
  -- sizes, fractions between 0 and 1 and a merge window of hours of a day.
  pub configure_all-IsProper :
      IsOrdered fl
      → (settings : List (Setting fl)) (dir : Bytes) (cpus : ℕ)
      → AllProper (configure_all fl settings (default_config fl dir cpus))
  configure_all-IsProper ordered settings dir cpus =
      all-IsProper settings (default_config fl dir cpus) (default_config-IsProper ordered dir cpus)

  -- The values that the documentation of the setters allows.
  abbrev pub IsAllowed : Setting fl → Type 0
  IsAllowed (merge_policy p) = InDay p
  IsAllowed (merge_trigger_fragmentation f) = fl.in_unit f ≡ true
  IsAllowed (merge_threshold_fragmentation f) = fl.in_unit f ≡ true
  IsAllowed (merge_check_jitter f) = fl.in_unit f ≡ true
  IsAllowed s = Unit

  abbrev pub AllAllowed : List (Setting fl) → Type 0
  AllAllowed [] = Unit
  AllAllowed (s ∷ settings) = IsAllowed s × AllAllowed settings

  abbrev Returns : Option (Config fl) → Type 0
  Returns o = (d : Config fl) × (o ≡ some d)

  none-Returns : Returns none → ⊥
  none-Returns (d, e) = ground (arith, e)

  asserted_iff : (b : Bool) (c : Config fl) → Returns (asserted fl b c) ↔ (b ≡ true)
  asserted_iff true c = (λ r. refl, λ h. (c, refl))
  asserted_iff false c = (λ r. absurd (none-Returns r), λ h. absurd (ground (arith, h)))

  configure_iff : (s : Setting fl) (c : Config fl) → Returns (configure fl s c) ↔ IsAllowed s
  unfolding configure
  configure_iff (path p) c = (λ r. tt, λ h. (_, refl))
  configure_iff (concurrency n l) c = (λ r. tt, λ h. (_, refl))
  configure_iff (readers_cache_size n l) c = (λ r. tt, λ h. (_, refl))
  configure_iff (max_file_size n l) c = (λ r. tt, λ h. (_, refl))
  configure_iff (sync s) c = (λ r. tt, λ h. (_, refl))
  configure_iff (merge_policy p) c = (
    λ r. (hours_iff p).0 ((asserted_iff (hours p) _).0 r),
    λ h. (asserted_iff (hours p) _).1 ((hours_iff p).1 h),
  )
  configure_iff (merge_trigger_fragmentation f) c = asserted_iff _ _
  configure_iff (merge_trigger_dead_bytes n) c = (λ r. tt, λ h. (_, refl))
  configure_iff (merge_threshold_fragmentation f) c = asserted_iff _ _
  configure_iff (merge_threshold_dead_bytes n) c = (λ r. tt, λ h. (_, refl))
  configure_iff (merge_threshold_small_file n) c = (λ r. tt, λ h. (_, refl))
  configure_iff (merge_check_interval_ms n) c = (λ r. tt, λ h. (_, refl))
  configure_iff (merge_check_jitter f) c = asserted_iff _ _

  -- A sequence of setter calls on any configuration gives a configuration, and does not panic, exactly
  -- when no call sets a merge window outside of the hours 0 to 23 or a fraction outside of [0, 1].
  pub configure_all_iff :
      (settings : List (Setting fl)) (c : Config fl)
      → ((d : Config fl) × (configure_all fl settings (some c) ≡ some d)) ↔ AllAllowed settings
  unfolding configure_all
  configure_all_iff [] c = (λ r. tt, λ h. (c, refl))
  configure_all_iff (s ∷ settings) c = elim (Option-cases (configure fl s c)) [
    | inl p ↦ (
      λ r. absurd (none-Returns (subst (λ o. Returns (configure_all fl settings o)) p r)),
      λ h. absurd (none-Returns (subst Returns p ((configure_iff s c).1 h.0))),
    )
    | inr (d, p) ↦ (
      λ r. (
        (configure_iff s c).0 (d, p),
        (configure_all_iff settings d).0 (subst (λ o. Returns (configure_all fl settings o)) p r),
      ),
      λ h.
          subst (λ o. Returns (configure_all fl settings o)) (sym p)
            ((configure_all_iff settings d).1 h.1),
    )
  ]
