-- ===== src/Merkle/Levels.antt =====
-- Theorems on the two ways in which src/template.rs pairs the hashes of a level.
use stratum_bee.Base.{length, Bytes, ◌+◌, ◌/◌, ◌≡◌, refl, ap, ◌∙◌, List, [], ◌∷◌, arith}
use stratum_bee.Hash.{merkle_step}
use stratum_bee.Crates.{Crates}
use stratum_bee.Merkle.{next_level, push_last, hash_chunks, next_txid_level}

module _ (c : Crates) where
  pub length-next_level :
      (level : List Bytes) → length (next_level c level) ≡ (length level + 1) / 2
  unfolding next_level
  length-next_level [] = refl
  length-next_level (left ∷ []) = refl
  length-next_level (left ∷ right ∷ level) = omega (arith, length-next_level level)

  -- Padding an odd level leaves its first pair alone.
  pad :
      (left right : Bytes) (hashes : List Bytes)
      → next_txid_level c (left ∷ right ∷ hashes)
        ≡ merkle_step c left right ∷ next_txid_level c hashes
  unfolding next_txid_level hash_chunks push_last
  pad left right [] = refl
  pad left right (hash ∷ hashes) = ground arith

  -- Pushing a copy of the last hash of an odd level and hashing the pairs gives the same next level
  -- as pairing a lone hash with itself.
  pub next_txid_level-eq-next_level :
      (hashes : List Bytes) → next_txid_level c hashes ≡ next_level c hashes
  unfolding next_txid_level hash_chunks push_last next_level
  next_txid_level-eq-next_level [] = refl
  next_txid_level-eq-next_level (left ∷ []) = refl
  next_txid_level-eq-next_level (left ∷ right ∷ hashes) =
      pad left right hashes
      ∙ ap (◌∷◌ (merkle_step c left right)) (next_txid_level-eq-next_level hashes)
