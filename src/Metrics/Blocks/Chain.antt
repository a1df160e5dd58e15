-- ===== src/Metrics/Blocks/Chain.antt =====
-- The well-formed blocks of a store (src/metrics.rs), and theorems on `upsert_block`.
use stratum_bee.Base.{
  ltb, Bool-cases, Option-cases, length, All, Text, text_eq, text_eq→eq, text_eq_sym, ℕ, ◌≤◌, ◌≡◌,
  refl, ◌∙◌, subst, inl, inr, Bool, true, false, ◌||◌, none, some, List, [], ◌∷◌, ◌++◌, arith,
}
use stratum_bee.Metrics.Store.{BlockEvent, MetricsState, trim_front, length-trim_front}
use stratum_bee.Metrics.Blocks.{replace_block, upsert_block, is_confirmed_block, is_matured_block}

module _ {F : Type 0} where
  -- A reward that is matured is in the active chain.
  abbrev pub IsConsistent : BlockEvent F → Type 0
  IsConsistent block = is_matured_block block ≡ true → is_confirmed_block block ≡ true

  -- Whether one of the blocks has the hash.
  unfoldable pub has_hash : Text → List (BlockEvent F) → Bool
  has_hash hash [] = false
  has_hash hash (block ∷ blocks) = text_eq block.hash hash || has_hash hash blocks

  abbrev pub Distinct : List (BlockEvent F) → Type 0
  Distinct [] = Unit
  Distinct (block ∷ blocks) = (has_hash block.hash blocks ≡ false) × Distinct blocks

  -- At most `max_blocks` blocks, with hashes that are all different and consistent rewards.
  pub record IsBlocks (s : MetricsState F) : Type 0 where
    pub few : length s.blocks ≤ s.max_blocks
    pub distinct : Distinct s.blocks
    pub consistent : All IsConsistent s.blocks

  trim_front-All :
      (P : BlockEvent F → Type 0) (max' : ℕ) (blocks : List (BlockEvent F))
      → All P blocks
      → All P (trim_front max' blocks)
  unfolding trim_front
  trim_front-All P max' [] h = tt
  trim_front-All P max' (block ∷ blocks) (h, hs) =
      elim (Bool-cases (ltb max' (length (block ∷ blocks)))) [
        | inl long ↦ rw long (trim_front-All P max' blocks hs)
        | inr short ↦ rw short (h, hs)
      ]

  trim_front-Distinct :
      (max' : ℕ) (blocks : List (BlockEvent F))
      → Distinct blocks
      → Distinct (trim_front max' blocks)
  unfolding trim_front
  trim_front-Distinct max' [] h = tt
  trim_front-Distinct max' (block ∷ blocks) (h, hs) =
      elim (Bool-cases (ltb max' (length (block ∷ blocks)))) [
        | inl long ↦ rw long (trim_front-Distinct max' blocks hs)
        | inr short ↦ rw short (h, hs)
      ]

  has_hash-append :
      (hash : Text) (blocks more : List (BlockEvent F))
      → has_hash hash (blocks ++ more) ≡ (has_hash hash blocks || has_hash hash more)
  unfolding has_hash
  has_hash-append hash [] more = refl
  has_hash-append hash (block ∷ blocks) more = ground (arith, has_hash-append hash blocks more)

  All-snoc :
      (P : BlockEvent F → Type 0) (blocks : List (BlockEvent F)) (event : BlockEvent F)
      → All P blocks
      → P event
      → All P (blocks ++ (event ∷ []))
  All-snoc P [] event h p = (p, tt)
  All-snoc P (block ∷ blocks) event (h, hs) p = (h, All-snoc P blocks event hs p)

  Distinct-snoc :
      (blocks : List (BlockEvent F)) (event : BlockEvent F)
      → Distinct blocks
      → has_hash event.hash blocks ≡ false
      → Distinct (blocks ++ (event ∷ []))
  unfolding has_hash
  Distinct-snoc [] event h fresh = (refl, tt)
  Distinct-snoc (block ∷ blocks) event (h, hs) fresh = (
    ground
        (arith, has_hash-append block.hash blocks (event ∷ []), text_eq_sym block.hash event.hash),
    Distinct-snoc blocks event hs (ground arith),
  )

  -- `replace_block` fails where no block has the hash, and otherwise keeps the hashes.
  replace_block-none :
      (event : BlockEvent F) (blocks : List (BlockEvent F))
      → replace_block event blocks ≡ none
      → has_hash event.hash blocks ≡ false
  unfolding replace_block has_hash
  replace_block-none event [] e = refl
  replace_block-none event (block ∷ blocks) e = ground (arith, replace_block-none event blocks)

  -- What replacing a block leaves alone.
  replace_block-some :
      (event : BlockEvent F) (blocks replaced : List (BlockEvent F))
      → replace_block event blocks ≡ some replaced
      → (length replaced ≡ length blocks)
        × ((hash : Text) → has_hash hash replaced ≡ has_hash hash blocks)
  unfolding replace_block has_hash
  replace_block-some event [] replaced e = cc
  replace_block-some event (block ∷ blocks) replaced e =
      elim (Bool-cases (text_eq block.hash event.hash)) [
        | inl same ↦
            let eq : replaced ≡ record event { created_at = block.created_at } ∷ blocks =
              ground arith in
            rw eq (omega arith, λ hash. rw (text_eq→eq _ _ same) refl)
        | inr other ↦ elim (Option-cases (replace_block event blocks)) [
          | inl bad ↦ absurd (ground arith)
          | inr (rest, good) ↦
              let (len, hashes) = replace_block-some event blocks rest good in
              let eq : replaced ≡ block ∷ rest = ground arith in
              rw eq (omega (arith, len), λ hash. rw (hashes hash) refl)
        ]
      ]

  -- A changed creation time changes nothing about consistency.
  replace_block-keeps :
      (event : BlockEvent F) (blocks replaced : List (BlockEvent F))
      → replace_block event blocks ≡ some replaced
      → IsConsistent event
      → All IsConsistent blocks
      → Distinct blocks
      → All IsConsistent replaced × Distinct replaced
  unfolding replace_block is_matured_block is_confirmed_block
  replace_block-keeps event [] replaced e p ps ds = cc
  replace_block-keeps event (block ∷ blocks) replaced e p (q, qs) (d, ds) =
      elim (Bool-cases (text_eq block.hash event.hash)) [
        | inl same ↦
            let eq : replaced ≡ record event { created_at = block.created_at } ∷ blocks =
              ground arith in
            let hash : block.hash ≡ event.hash = text_eq→eq _ _ same in
            rw eq ((p, qs), (subst (λ h. has_hash h blocks ≡ false) hash d, ds))
        | inr other ↦ elim (Option-cases (replace_block event blocks)) [
          | inl bad ↦ absurd (ground arith)
          | inr (rest, good) ↦
              let (ps', ds') = replace_block-keeps event blocks rest good p qs ds in
              let (len, hashes) = replace_block-some event blocks rest good in
              let eq : replaced ≡ block ∷ rest = ground arith in
              rw eq ((q, ps'), (hashes block.hash ∙ d, ds'))
        ]
      ]

  upsert_block-new :
      (s : MetricsState F) (event : BlockEvent F)
      → replace_block event s.blocks ≡ none
      → upsert_block s event
        ≡ record s { blocks = trim_front s.max_blocks (s.blocks ++ (event ∷ [])) }
  unfolding upsert_block
  upsert_block-new s event e = ground arith

  upsert_block-known :
      (s : MetricsState F) (event : BlockEvent F) (blocks : List (BlockEvent F))
      → replace_block event s.blocks ≡ some blocks
      → upsert_block s event ≡ record s { blocks = blocks }
  unfolding upsert_block
  upsert_block-known s event blocks e = ground arith

  -- Recording a block whose reward is matured only in the active chain, new or known, keeps the
  -- blocks well formed: within their bound, with hashes that are all different and with such
  -- rewards.
  pub upsert_block-IsBlocks :
      (s : MetricsState F) (event : BlockEvent F)
      → IsConsistent event
      → IsBlocks s
      → IsBlocks (upsert_block s event)
  upsert_block-IsBlocks s event p v = elim (Option-cases (replace_block event s.blocks)) [
    | inl new ↦ rw (upsert_block-new s event new) (record {
      few = length-trim_front s.max_blocks (s.blocks ++ (event ∷ []));
      distinct =
          trim_front-Distinct s.max_blocks (s.blocks ++ (event ∷ []))
            (Distinct-snoc s.blocks event v.distinct (replace_block-none event s.blocks new));
      consistent =
          trim_front-All IsConsistent s.max_blocks (s.blocks ++ (event ∷ []))
            (All-snoc IsConsistent s.blocks event v.consistent p);
    })
    | inr (blocks, known) ↦
        let (len, _) = replace_block-some event s.blocks blocks known in
        let (ps, ds) = replace_block-keeps event s.blocks blocks known p v.consistent v.distinct in
        rw (upsert_block-known s event blocks known)
          (record { few = omega (arith, len, v.few); distinct = ds; consistent = ps })
  ]
