-- ===== src/Merkle.antt =====
-- The Merkle trees of src/template.rs: `build_merkle_branches`, `compute_txid_partial_root` and
-- `compute_witness_commitment_script_hex`, and the fold of `validate_share` (src/share.rs). A hash
-- is a list of 32 bytes. A `while` loop over a level takes as fuel the number of hashes.
pub mod Root
pub mod Levels
use stratum_bee.Base.{
  ltb, ◌==◌, if◌then◌else◌, length, get_or, replicate, is_empty, Bytes, Text, Result, ok, err,
  ◌>>=◌, ◌>>◌, ok_or, ensure, ℕ, zero, suc, ◌%◌, Option, none, some, List, [], ◌∷◌, ◌++◌, reverse,
}
use stratum_bee.Crates.{Crates, context}
use stratum_bee.Hash.{merkle_step}

-- The fields of a `getblocktemplate` transaction.
pub record GbtTx : Type 0 where
  pub tx_data : Text
  pub txid : Option Text
  pub hash : Option Text

-- `vec.try_into()` to `[u8; 32]`.
abbrev pub to_array32 : Bytes → Option Bytes
to_array32 bs = if length bs == 32 then some bs else none

module _ (c : Crates) where
  -- `for idx in (0..level.len()).step_by(2)`: a last hash without a partner is paired with itself.
  unfoldable pub next_level : List Bytes → List Bytes
  next_level [] = []
  next_level (left ∷ []) = merkle_step c left left ∷ []
  next_level (left ∷ right ∷ level) = merkle_step c left right ∷ next_level level

  -- `while level.len() > 1` of `build_merkle_branches`.
  unfoldable pub merkle_branches_loop : ℕ → List Bytes → List Bytes → List Bytes
  merkle_branches_loop zero level branches = branches
  merkle_branches_loop (suc fuel) [] branches = branches
  merkle_branches_loop (suc fuel) (hash ∷ []) branches = branches
  merkle_branches_loop (suc fuel) (hash ∷ sibling ∷ level) branches =
      merkle_branches_loop fuel (next_level (hash ∷ sibling ∷ level)) (branches ++ (sibling ∷ []))

  unfoldable pub build_merkle_branches : Bytes → List Bytes → List Bytes
  build_merkle_branches coinbase_hash tx_hashes =
      let level = coinbase_hash ∷ tx_hashes in merkle_branches_loop (length level) level []

  -- `for branch in &job.merkle_branches_le` of `validate_share`.
  unfoldable pub fold_branches : Bytes → List Bytes → Bytes
  fold_branches merkle_root [] = merkle_root
  fold_branches merkle_root (branch ∷ branches) =
      fold_branches (merkle_step c merkle_root branch) branches

  -- `while level.len() > 1` of the witness commitment.
  unfoldable pub witness_root_loop : ℕ → List Bytes → List Bytes
  witness_root_loop zero level = level
  witness_root_loop (suc fuel) [] = []
  witness_root_loop (suc fuel) (hash ∷ []) = hash ∷ []
  witness_root_loop (suc fuel) (hash ∷ sibling ∷ level) =
      witness_root_loop fuel (next_level (hash ∷ sibling ∷ level))

  -- The hashes of one transaction list as leaves behind the coinbase's 32 zero bytes.
  unfoldable pub witness_leaves : List GbtTx → Result (List Bytes)
  witness_leaves [] = ok []
  witness_leaves (tx ∷ txs) = do
    wtxid_hex ← ok_or tx.hash "getblocktemplate transaction missing wtxid hash"
    bytes ← context (c.hex_decode wtxid_hex) "decode wtxid"
    ensure (length bytes == 32) "invalid wtxid length"
    leaves ← witness_leaves txs
    ok (reverse bytes ∷ leaves)

  -- OP_RETURN, a push of 36 bytes, the commitment's header and the commitment.
  unfoldable pub commitment_script : Bytes → Bytes
  commitment_script commitment =
      (0x6a ∷ 0x24 ∷ []) ++ ((0xaa ∷ 0x21 ∷ 0xa9 ∷ 0xed ∷ []) ++ commitment)

  unfoldable pub compute_witness_commitment_script_hex : List GbtTx → Result Text
  compute_witness_commitment_script_hex txs = do
    leaves ← witness_leaves txs
    let level = replicate 32 0 ∷ leaves
    let witness_merkle_root = get_or (witness_root_loop (length level) level) 0 []
    let commitment = merkle_step c witness_merkle_root (replicate 32 0)
    ok (c.hex_encode (commitment_script commitment))

  -- `hashes.push(*hashes.last().unwrap())`.
  unfoldable pub push_last : List Bytes → List Bytes
  push_last [] = []
  push_last (hash ∷ []) = hash ∷ hash ∷ []
  push_last (hash ∷ next ∷ hashes) = hash ∷ push_last (next ∷ hashes)

  -- `chunks(2)`, each pair hashed. `pair[1]` of a chunk of one is out of range: the list is even.
  unfoldable pub hash_chunks : List Bytes → List Bytes
  hash_chunks [] = []
  hash_chunks (left ∷ []) = []
  hash_chunks (left ∷ right ∷ hashes) = merkle_step c left right ∷ hash_chunks hashes

  -- One round of the loop of `compute_txid_partial_root`.
  unfoldable pub next_txid_level : List Bytes → List Bytes
  next_txid_level hashes = hash_chunks (if length hashes % 2 == 1 then push_last hashes else hashes)

  unfoldable pub txid_root_loop : ℕ → List Bytes → List Bytes
  txid_root_loop zero hashes = hashes
  txid_root_loop (suc fuel) hashes =
      let rest = txid_root_loop fuel (next_txid_level hashes) in
      if ltb 1 (length hashes) then rest else hashes

  -- The closure of `filter_map`: a missing or malformed txid is left out.
  unfoldable pub txid_bytes : GbtTx → Option Bytes
  txid_bytes tx = elim tx.txid [
    | none ↦ none
    | some txid ↦ elim (c.hex_decode txid) [ err e ↦ none | ok bytes ↦ to_array32 (reverse bytes) ]
  ]

  unfoldable pub txid_hashes : List GbtTx → List Bytes
  txid_hashes [] = []
  txid_hashes (tx ∷ txs) = elim (txid_bytes tx) [
    | none ↦ txid_hashes txs
    | some hash ↦ hash ∷ txid_hashes txs
  ]

  unfoldable pub compute_txid_partial_root : List GbtTx → Text
  compute_txid_partial_root transactions =
      let hashes = txid_hashes transactions in
      if is_empty transactions
      then replicate 64 b'0'
      else if is_empty hashes
      then replicate 64 b'0'
      else c.hex_encode (reverse (get_or (txid_root_loop (length hashes) hashes) 0 []))
