-- ===== src/Merkle/Root.antt =====
-- The Merkle root as a relation that names no loop, and theorems on the loops of src/template.rs.
use stratum_bee.Base.{
  lt→ltb, length, Bytes, ℕ, zero, suc, ◌≤◌, ◌≡◌, refl, sym, ap, ◌∙◌, subst, List, [], ◌∷◌, ◌++◌,
  append_assoc, append-nil, arith,
}
use stratum_bee.Crates.{Crates}
use stratum_bee.Hash.{double_sha256, merkle_step}
use stratum_bee.Merkle.{
  next_level, merkle_branches_loop, build_merkle_branches, fold_branches, witness_root_loop,
  txid_root_loop,
}
use stratum_bee.Merkle.Levels.{length-next_level, next_txid_level-eq-next_level}

-- `next` has the double digest of each pair of neighbours in `level`, and of a lone last hash with
-- itself.
pub data Paired (c : Crates) : List Bytes → List Bytes → Type 0 where
  none_left : Paired c [] []
  one_left : (hash : Bytes) → Paired c (hash ∷ []) (double_sha256 c (hash ++ hash) ∷ [])
  two_left :
      (left right : Bytes) (level next : List Bytes)
      → Paired c level next
      → Paired c (left ∷ right ∷ level) (double_sha256 c (left ++ right) ∷ next)

-- `root` is what is left of `level` when the hashes are paired until one remains.
pub data MerkleRoot (c : Crates) : List Bytes → Bytes → Type 0 where
  alone : (hash : Bytes) → MerkleRoot c (hash ∷ []) hash
  paired :
      (hash sibling root : Bytes) (level next : List Bytes)
      → Paired c (hash ∷ sibling ∷ level) next
      → MerkleRoot c next root
      → MerkleRoot c (hash ∷ sibling ∷ level) root

module _ (c : Crates) where
  next_level-Paired : (level : List Bytes) → Paired c level (next_level c level)
  unfolding next_level merkle_step
  next_level-Paired [] = Paired.none_left
  next_level-Paired (hash ∷ []) = Paired.one_left hash
  next_level-Paired (left ∷ right ∷ level) =
      Paired.two_left left right level (next_level c level) (next_level-Paired level)

  Paired-unique :
      {level next next' : List Bytes} → Paired c level next → Paired c level next' → next ≡ next'
  Paired-unique Paired.none_left Paired.none_left = refl
  Paired-unique (Paired.one_left hash) (Paired.one_left _) = refl
  Paired-unique (Paired.two_left left right _ _ p) (Paired.two_left _ _ _ _ q) =
      ap (◌∷◌ (double_sha256 c (left ++ right))) (Paired-unique p q)

  branches_loop-append :
      (fuel : ℕ) (level branches : List Bytes)
      → merkle_branches_loop c fuel level branches
        ≡ branches ++ merkle_branches_loop c fuel level []
  unfolding merkle_branches_loop
  branches_loop-append zero level branches = sym (append-nil branches)
  branches_loop-append (suc fuel) [] branches = sym (append-nil branches)
  branches_loop-append (suc fuel) (hash ∷ []) branches = sym (append-nil branches)
  branches_loop-append (suc fuel) (hash ∷ sibling ∷ level) branches =
      let next = next_level c (hash ∷ sibling ∷ level) in
      branches_loop-append fuel next (branches ++ (sibling ∷ []))
      ∙ append_assoc branches (sibling ∷ []) (merkle_branches_loop c fuel next [])
      ∙ ap (◌++◌ branches) (sym (branches_loop-append fuel next (sibling ∷ [])))

  -- The branches of one leaf serve any other leaf in its place.
  branches_loop-MerkleRoot :
      (fuel : ℕ) (old new : Bytes) (level : List Bytes)
      → length (old ∷ level) ≤ fuel
      → MerkleRoot c
          (new ∷ level)
          (fold_branches c new (merkle_branches_loop c fuel (old ∷ level) []))
  unfolding merkle_branches_loop fold_branches next_level
  branches_loop-MerkleRoot zero old new level h = absurd (omega arith)
  branches_loop-MerkleRoot (suc fuel) old new [] h = MerkleRoot.alone new
  branches_loop-MerkleRoot (suc fuel) old new (sibling ∷ level) h =
      let rest =
        branches_loop-MerkleRoot fuel (merkle_step c old sibling) (merkle_step c new sibling)
          (next_level c level) (omega (arith, length-next_level c level)) in
      MerkleRoot.paired new sibling _ level _ (next_level-Paired (new ∷ sibling ∷ level))
        (rw (branches_loop-append fuel (next_level c (old ∷ sibling ∷ level)) (sibling ∷ [])) rest)

  -- The Merkle branches that are built with one coinbase hash lead any other coinbase hash to the
  -- Merkle root, pairing level by level, of the block whose first transaction has that hash.
  pub build_merkle_branches-MerkleRoot :
      (old new : Bytes) (tx_hashes : List Bytes)
      → MerkleRoot c (new ∷ tx_hashes) (fold_branches c new (build_merkle_branches c old tx_hashes))
  unfolding build_merkle_branches
  build_merkle_branches-MerkleRoot old new tx_hashes =
      branches_loop-MerkleRoot (length (old ∷ tx_hashes)) old new tx_hashes (omega arith)

  -- The root loop of the witness commitment, on a list of hashes that is not empty and with as much
  -- fuel as there are hashes, ends with one hash, which is their Merkle root: what is left when
  -- neighbours are hashed together, and a lone last hash with itself, until one remains.
  pub witness_root_loop-MerkleRoot :
      (fuel : ℕ) (hash : Bytes) (level : List Bytes)
      → length (hash ∷ level) ≤ fuel
      → (root : Bytes) × (witness_root_loop c fuel (hash ∷ level) ≡ root ∷ [])
        × MerkleRoot c (hash ∷ level) root
  unfolding witness_root_loop next_level
  witness_root_loop-MerkleRoot zero hash level h = absurd (omega arith)
  witness_root_loop-MerkleRoot (suc fuel) hash [] h = (hash, refl, MerkleRoot.alone hash)
  witness_root_loop-MerkleRoot (suc fuel) hash (sibling ∷ level) h =
      let (root, e, r) =
        witness_root_loop-MerkleRoot fuel (merkle_step c hash sibling) (next_level c level)
          (omega (arith, length-next_level c level)) in
      (
        root,
        e,
        MerkleRoot.paired hash sibling root level _ (next_level-Paired (hash ∷ sibling ∷ level)) r,
      )

  -- The loop over the transaction identifiers is the same loop.
  pub txid_root_loop-eq :
      (fuel : ℕ) (hashes : List Bytes)
      → txid_root_loop c fuel hashes ≡ witness_root_loop c fuel hashes
  unfolding txid_root_loop witness_root_loop
  txid_root_loop-eq zero hashes = refl
  txid_root_loop-eq (suc fuel) [] = refl
  txid_root_loop-eq (suc fuel) (hash ∷ []) = refl
  txid_root_loop-eq (suc fuel) (hash ∷ sibling ∷ level) =
      rw (lt→ltb 1 (suc (suc (length level))) (omega arith))
        (ap (txid_root_loop c fuel) (next_txid_level-eq-next_level c (hash ∷ sibling ∷ level)))
      ∙ txid_root_loop-eq fuel (next_level c (hash ∷ sibling ∷ level))

  -- A list of hashes has one root.
  pub MerkleRoot-unique :
      {level : List Bytes} {root root' : Bytes}
      → MerkleRoot c level root
      → MerkleRoot c level root'
      → root ≡ root'
  MerkleRoot-unique (MerkleRoot.alone _) (MerkleRoot.alone _) = refl
  MerkleRoot-unique (MerkleRoot.paired _ _ root _ _ p r) (MerkleRoot.paired _ _ _ _ _ q s) =
      MerkleRoot-unique (subst (λ next. MerkleRoot c next root) (Paired-unique p q) r) s

  -- Folding any coinbase hash through the branches built with another gives what the loop over
  -- transaction identifiers gives on all the hashes with that coinbase in front.
  pub fold_branches-txid_root_loop :
      (old new : Bytes) (tx_hashes : List Bytes)
      → txid_root_loop c (length (new ∷ tx_hashes)) (new ∷ tx_hashes)
        ≡ fold_branches c new (build_merkle_branches c old tx_hashes) ∷ []
  fold_branches-txid_root_loop old new tx_hashes =
      let (root, e, r) =
        witness_root_loop-MerkleRoot (length (new ∷ tx_hashes)) new tx_hashes (omega arith) in
      txid_root_loop-eq _ (new ∷ tx_hashes)
      ∙ e
      ∙ ap (λ (h : Bytes). h ∷ [])
          (MerkleRoot-unique r (build_merkle_branches-MerkleRoot old new tx_hashes))
