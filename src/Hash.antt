-- ===== src/Hash.antt =====
-- src/hash.rs: the double digest and the step of a Merkle tree.
use stratum_bee.Base.{length, All, Bytes, IsByte, ◌≡◌, ◌++◌}
use stratum_bee.Crates.{Crates, CrateLaws}

module _ (c : Crates) where
  unfoldable pub double_sha256 : Bytes → Bytes
  double_sha256 input = let first = c.sha256 input in let second = c.sha256 first in second

  unfoldable pub merkle_step : Bytes → Bytes → Bytes
  merkle_step left right = double_sha256 (left ++ right)

  pub length-double_sha256 : CrateLaws c → (input : Bytes) → length (double_sha256 input) ≡ 32
  unfolding double_sha256
  length-double_sha256 laws input = laws.length-sha256 (c.sha256 input)

  pub double_sha256-IsByte : CrateLaws c → (input : Bytes) → All IsByte (double_sha256 input)
  unfolding double_sha256
  double_sha256-IsByte laws input = laws.sha256-IsByte (c.sha256 input)
