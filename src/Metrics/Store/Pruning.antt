-- ===== src/Metrics/Store/Pruning.antt =====
-- The well-formed stores of src/metrics.rs, and theorems on `prune_inactive`.
use stratum_bee.Base.{
  if◌then◌else◌, Bool-cases, Option-cases, length, any, All, Text, text_eq, text_eq→eq, text_eq_sym,
  ℕ, ◌-◌, ◌≤◌, ◌≡◌, refl, ◌∙◌, subst, ◌↔◌, inl, inr, Bool, false, none, some, List, [], ◌∷◌, arith,
}
use stratum_bee.Metrics.Maps.{lookup, update_entry, remove, lookup-update_entry_other}
use stratum_bee.Metrics.Store.{
  MinerStats, ShareSample, MetricsState, is_inactive, stale_workers, remove_workers, prune_inactive,
}

abbrev mem_text : Text → List Text → Bool
mem_text key keys = any (λ k. text_eq k key) keys

module _ {V : Type 0} where
  -- The keys are all different.
  abbrev pub Keyed : List (Text × V) → Type 0
  Keyed [] = Unit
  Keyed ((k, v) ∷ entries) = (lookup k entries ≡ none) × Keyed entries

  lookup-remove_other :
      (key other : Text) (entries : List (Text × V))
      → text_eq key other ≡ false
      → lookup other (remove key entries) ≡ lookup other entries
  unfolding lookup remove
  lookup-remove_other key other [] h = refl
  lookup-remove_other key other ((k, v) ∷ entries) h = elim (Bool-cases (text_eq k key)) [
    | inl same ↦ ground (arith, text_eq→eq k key)
    | inr e ↦ ground (arith, lookup-remove_other key other entries h)
  ]

  lookup-remove :
      (key : Text) (entries : List (Text × V))
      → Keyed entries
      → lookup key (remove key entries) ≡ none
  unfolding lookup remove
  lookup-remove key [] h = refl
  lookup-remove key ((k, v) ∷ entries) (h, hs) = elim (Bool-cases (text_eq k key)) [
    | inl same ↦ rw same (subst (λ t. lookup t entries ≡ none) (text_eq→eq k key same) h)
    | inr e ↦ ground (arith, lookup-remove key entries hs)
  ]

  Keyed-remove :
      (key : Text) (entries : List (Text × V)) → Keyed entries → Keyed (remove key entries)
  unfolding remove
  Keyed-remove key [] h = tt
  Keyed-remove key ((k, v) ∷ entries) (h, hs) = elim (Bool-cases (text_eq k key)) [
    | inl same ↦ rw same hs
    | inr e ↦
        rw e (
          lookup-remove_other key k entries (text_eq_sym key k ∙ e) ∙ h,
          Keyed-remove key entries hs,
        )
  ]

module _ {F : Type 0} where
  remove_workers-miners :
      (workers : List Text) (s : MetricsState F) (worker : Text)
      → Keyed s.miners
      → (lookup worker (remove_workers workers s).miners
          ≡ (if mem_text worker workers then none else lookup worker s.miners))
        × Keyed (remove_workers workers s).miners
  unfolding remove_workers
  remove_workers-miners [] s worker h = (refl, h)
  remove_workers-miners (w ∷ workers) s worker h =
      let s' = record s { miners = remove w s.miners; share_samples = remove w s.share_samples } in
      let (e, keyed) = remove_workers-miners workers s' worker (Keyed-remove w s.miners h) in
      elim (Bool-cases (text_eq w worker)) [
        | inl same ↦
            let eq = text_eq→eq w worker same in
            let gone = lookup-remove w s.miners h in (ground (arith, e, gone), keyed)
        | inr other ↦ (ground (arith, e, lookup-remove_other w worker s.miners other), keyed)
      ]

  stale_workers-other :
      (timeout now : ℕ) (miners : List (Text × MinerStats F)) (worker : Text)
      → lookup worker miners ≡ none
      → mem_text worker (stale_workers timeout now miners) ≡ false
  unfolding stale_workers lookup
  stale_workers-other timeout now [] worker h = refl
  stale_workers-other timeout now ((k, stats) ∷ miners) worker h =
      ground (arith, stale_workers-other timeout now miners worker)

  stale_workers-mem :
      (timeout now : ℕ) (miners : List (Text × MinerStats F)) (worker : Text) (stats : MinerStats F)
      → Keyed miners
      → lookup worker miners ≡ some stats
      → mem_text worker (stale_workers timeout now miners) ≡ is_inactive timeout now stats
  unfolding stale_workers lookup
  stale_workers-mem timeout now [] worker stats h e = cc
  stale_workers-mem timeout now ((k, v) ∷ miners) worker stats (h, hs) e =
      elim (Bool-cases (text_eq k worker)) [
        | inl same ↦
            let eq = text_eq→eq k worker same in
            let out =
              stale_workers-other timeout now miners worker
                (subst (λ t. lookup t miners ≡ none) eq h) in
            ground (arith, out)
        | inr other ↦ ground (arith, stale_workers-mem timeout now miners worker stats hs)
      ]

  -- Where the workers of the store are all different, a worker is known after pruning, with the
  -- same figures, exactly if it is known before and was seen within the timeout.
  pub prune_inactive_lem :
      (timeout : ℕ) (s : MetricsState F) (now : ℕ) (worker : Text) (stats : MinerStats F)
      → Keyed s.miners
      → (lookup worker (prune_inactive timeout s now).miners ≡ some stats)
        ↔ ((lookup worker s.miners ≡ some stats) × (now - stats.last_seen ≤ timeout))
  unfolding prune_inactive is_inactive
  prune_inactive_lem timeout s now worker stats h =
      let (e, _) = remove_workers-miners (stale_workers timeout now s.miners) s worker h in
      elim (Option-cases (lookup worker s.miners)) [
        | inl unknown ↦
            let out = stale_workers-other timeout now s.miners worker unknown in
            ground (arith, e, out)
        | inr (found, known) ↦
            let out = stale_workers-mem timeout now s.miners worker found h known in
            ground (arith, e, out)
      ]

module _ {V : Type 0} where
  pub Keyed-update_entry :
      (key : Text) (fresh : V) (g : V → V) (entries : List (Text × V))
      → Keyed entries
      → Keyed (update_entry key fresh g entries)
  unfolding update_entry lookup
  Keyed-update_entry key fresh g [] h = (refl, tt)
  Keyed-update_entry key fresh g ((k, v) ∷ entries) (h, hs) = elim (Bool-cases (text_eq k key)) [
    | inl same ↦ rw same (h, hs)
    | inr e ↦ rw e (
      lookup-update_entry_other key k fresh g entries (text_eq_sym key k ∙ e) ∙ h,
      Keyed-update_entry key fresh g entries hs,
    )
  ]

  pub All-update_entry :
      (P : Text × V → Type 0) (key : Text) (fresh : V) (g : V → V) (entries : List (Text × V))
      → ((k : Text) → P (k, g fresh))
      → ((k : Text) (v : V) → P (k, v) → P (k, g v))
      → All P entries
      → All P (update_entry key fresh g entries)
  unfolding update_entry
  All-update_entry P key fresh g [] new old h = (new key, tt)
  All-update_entry P key fresh g ((k, v) ∷ entries) new old (h, hs) =
      elim (Bool-cases (text_eq k key)) [
        | inl same ↦ rw same (old k v h, hs)
        | inr e ↦ rw e (h, All-update_entry P key fresh g entries new old hs)
      ]

  All-remove :
      (P : Text × V → Type 0) (key : Text) (entries : List (Text × V))
      → All P entries
      → All P (remove key entries)
  unfolding remove
  All-remove P key [] h = tt
  All-remove P key ((k, v) ∷ entries) (h, hs) = elim (Bool-cases (text_eq k key)) [
    | inl same ↦ rw same hs
    | inr e ↦ rw e (h, All-remove P key entries hs)
  ]

module _ {F : Type 0} where
  abbrev pub HasFewSamples : Text × List (ShareSample F) → Type 0
  HasFewSamples (worker, samples) = length samples ≤ 40

  -- Workers that are all different, with at most 40 samples each, and at most `max_events` events.
  pub record IsStore (s : MetricsState F) : Type 0 where
    pub keyed : Keyed s.miners
    pub few_samples : All HasFewSamples s.share_samples
    pub few_events : length s.events ≤ s.max_events

  remove_workers-IsStore :
      (workers : List Text) (s : MetricsState F) → IsStore s → IsStore (remove_workers workers s)
  unfolding remove_workers
  remove_workers-IsStore [] s v = v
  remove_workers-IsStore (worker ∷ workers) s v =
      remove_workers-IsStore workers
        (record s {
          miners = remove worker s.miners;
          share_samples = remove worker s.share_samples;
        })
        (record {
          keyed = Keyed-remove worker s.miners v.keyed;
          few_samples = All-remove HasFewSamples worker s.share_samples v.few_samples;
          few_events = v.few_events;
        })

  pub prune_inactive-IsStore :
      (timeout : ℕ) (s : MetricsState F) (now : ℕ)
      → IsStore s
      → IsStore (prune_inactive timeout s now)
  unfolding prune_inactive
  prune_inactive-IsStore timeout s now v = remove_workers-IsStore _ s v
