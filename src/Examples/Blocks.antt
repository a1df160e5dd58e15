-- ===== src/Examples/Blocks.antt =====
-- Merkle trees, coinbases and blocks at concrete values.
use stratum_bee.Base.{
  replicate, Bytes, zeros, ok, ◌≡◌, refl, false, List, [], ◌∷◌, ◌++◌, map, arith,
}
use stratum_bee.Merkle.{build_merkle_branches, fold_branches, witness_root_loop, txid_root_loop}
use stratum_bee.Merkle.Root.{
  MerkleRoot, build_merkle_branches-MerkleRoot, witness_root_loop-MerkleRoot,
  fold_branches-txid_root_loop,
}
use stratum_bee.Share.{build_block_hex}
use stratum_bee.Share.Block.{join, build_block_hex_lem}
use stratum_bee.Encoding.Varint.{encode_varint}
use stratum_bee.Examples.Toys.{toy_crates, toy_laws}

abbrev three_hashes : List Bytes
three_hashes = replicate 32 1 ∷ replicate 32 2 ∷ replicate 32 3 ∷ []

build_merkle_branches-MerkleRoot_example : MerkleRoot toy_crates (replicate 32 9 ∷ three_hashes) (
    fold_branches toy_crates
      (replicate 32 9)
      (build_merkle_branches toy_crates (replicate 32 0) three_hashes))
build_merkle_branches-MerkleRoot_example =
    build_merkle_branches-MerkleRoot toy_crates (replicate 32 0) (replicate 32 9) three_hashes

fold_branches-txid_root_loop_example :
    txid_root_loop toy_crates 4 (replicate 32 9 ∷ three_hashes)
    ≡ fold_branches toy_crates
        (replicate 32 9)
        (build_merkle_branches toy_crates (replicate 32 0) three_hashes)
      ∷ []
fold_branches-txid_root_loop_example =
    fold_branches-txid_root_loop toy_crates (replicate 32 0) (replicate 32 9) three_hashes

witness_root_loop-MerkleRoot_example :
    (root : Bytes) × (witness_root_loop toy_crates 4 (replicate 32 0 ∷ three_hashes) ≡ root ∷ [])
    × MerkleRoot toy_crates (replicate 32 0 ∷ three_hashes) root
witness_root_loop-MerkleRoot_example =
    witness_root_loop-MerkleRoot toy_crates 4 (replicate 32 0) three_hashes (omega arith)

abbrev two_txs : List Bytes
two_txs = (1 ∷ 2 ∷ []) ∷ (3 ∷ []) ∷ []

build_block_hex_lem_example :
    build_block_hex toy_crates
      (replicate 80 5)
      (zeros 4 ++ ((1 ∷ 7 ∷ []) ++ zeros 4))
      (map toy_crates.hex_encode two_txs)
      false
    ≡ ok (
        toy_crates.hex_encode (
          ((replicate 80 5 ++ encode_varint 3 []) ++ (zeros 4 ++ ((1 ∷ 7 ∷ []) ++ zeros 4)))
          ++ join two_txs))
build_block_hex_lem_example =
    build_block_hex_lem toy_crates toy_laws (replicate 80 5) (zeros 4) (1 ∷ 7 ∷ []) (zeros 4)
      two_txs false refl refl (ground arith)
