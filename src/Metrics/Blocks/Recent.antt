-- ===== src/Metrics/Blocks/Recent.antt =====
-- Theorems on the order of the reports of src/metrics.rs.
use mathlib.Core.List.{Permᴰ}
use mathlib.Core.List.Permᴰ
use stratum_bee.Base.{
  ltb, if◌then◌else◌, ltb→lt, Bool-cases, ◌≤◌, refl, subst, inl, inr, Bool, List, [], ◌∷◌, arith,
}
use stratum_bee.Metrics.Store.{BlockEvent, MetricsState}
use stratum_bee.Metrics.Blocks.{insert_sorted, sort_by, recent_blocks}

insert_sorted-Perm {ℓ} :
    {A : Type ℓ} (first : A → A → Bool) (x : A) (xs : List A)
    → Permᴰ (x ∷ xs) (insert_sorted first x xs)
unfolding insert_sorted
insert_sorted-Perm first x [] = Permᴰ.refl _
insert_sorted-Perm first x (y ∷ ys) = elim (Bool-cases (first y x)) [
  | inl later ↦
      rw later
        (Permᴰ.trans (Permᴰ.swap refl refl) (Permᴰ.cons refl (insert_sorted-Perm first x ys)))
  | inr here ↦ rw here (Permᴰ.refl _)
]

sort_by-Perm {ℓ} : {A : Type ℓ} (first : A → A → Bool) (xs : List A) → Permᴰ xs (sort_by first xs)
unfolding sort_by
sort_by-Perm first [] = Permᴰ.nil
sort_by-Perm first (x ∷ xs) =
    Permᴰ.trans (Permᴰ.cons refl (sort_by-Perm first xs)) (insert_sorted-Perm first x _)

module _ {F : Type 0} where
  -- Each block is at least as late as the next.
  abbrev pub IsLatestFirst : List (BlockEvent F) → Type 0
  IsLatestFirst [] = Unit
  IsLatestFirst (block ∷ []) = Unit
  IsLatestFirst (block ∷ next ∷ blocks) =
      (next.created_at ≤ block.created_at) × IsLatestFirst (next ∷ blocks)

  abbrev later : BlockEvent F → BlockEvent F → Bool
  later a b = ltb b.created_at a.created_at

  insert_sorted-IsLatestFirst :
      (block : BlockEvent F) (blocks : List (BlockEvent F))
      → IsLatestFirst blocks
      → IsLatestFirst (insert_sorted later block blocks)
  unfolding insert_sorted
  insert_sorted-IsLatestFirst block [] h = tt
  insert_sorted-IsLatestFirst block (x ∷ []) h = elim (Bool-cases (later x block)) [
    | inl e ↦ rw e (omega (arith, ltb→lt block.created_at x.created_at e), tt)
    | inr e ↦ rw e (ground arith, tt)
  ]
  insert_sorted-IsLatestFirst block (x ∷ y ∷ blocks) (h, hs) =
      let rest = insert_sorted-IsLatestFirst block (y ∷ blocks) hs in
      elim (Bool-cases (later x block)) [
        | inr e ↦ rw e (ground arith, (h, hs))
        | inl e ↦ elim (Bool-cases (later y block)) [
          | inl e' ↦
              rw (e, e')
                (
                  h,
                  subst
                      (λ b.
                        IsLatestFirst
                          (if b then y ∷ insert_sorted later block blocks else block ∷ y ∷ blocks))
                      e' rest,
                )
          | inr e' ↦
              rw (e, e')
                (
                  omega (arith, ltb→lt block.created_at x.created_at e),
                  subst
                      (λ b.
                        IsLatestFirst
                          (if b then y ∷ insert_sorted later block blocks else block ∷ y ∷ blocks))
                      e' rest,
                )
        ]
      ]

  sort_by-IsLatestFirst : (blocks : List (BlockEvent F)) → IsLatestFirst (sort_by later blocks)
  unfolding sort_by
  sort_by-IsLatestFirst [] = tt
  sort_by-IsLatestFirst (block ∷ blocks) =
      insert_sorted-IsLatestFirst block _ (sort_by-IsLatestFirst blocks)

  -- The report of recent blocks is a permutation of the blocks of the store, ordered with the
  -- latest first.
  pub recent_blocks-Perm :
      (s : MetricsState F) → Permᴰ s.blocks (recent_blocks s) × IsLatestFirst (recent_blocks s)
  unfolding recent_blocks
  recent_blocks-Perm s = (sort_by-Perm later s.blocks, sort_by-IsLatestFirst s.blocks)
