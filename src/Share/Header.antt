-- ===== src/Share/Header.antt =====
-- The 80 bytes of a block header.
use stratum_bee.Base.{length, length-append, Bytes, to_le_bytes, ℕ, ◌≡◌, ◌++◌, arith}
use stratum_bee.Share.{build_header}

pub length-build_header :
    (version : ℕ) (prevhash merkle_root : Bytes) (ntime nbits nonce : ℕ)
    → length prevhash ≡ 32
    → length merkle_root ≡ 32
    → length (build_header version prevhash merkle_root ntime nbits nonce) ≡ 80
unfolding build_header
length-build_header version prevhash merkle_root ntime nbits nonce hp hr =
    let tail = to_le_bytes 4 ntime ++ (to_le_bytes 4 nbits ++ to_le_bytes 4 nonce) in
    omega (arith, length-append prevhash (merkle_root ++ tail), length-append merkle_root tail)
