-- ===== src/P2p/Version.antt =====
-- The version message of src/p2p.rs. The time, the nonce, the addresses and the package's version are
-- arguments.
pub mod RoundTrip
use stratum_bee.Base.{
  ltb, leb, if◌then◌else◌, length, take, get_range, Bytes, zeros, to_le_bytes, from_le_bytes, Text,
  codes, Result, ok, ensure, ◌>>=◌, ◌>>◌, ℤ, ℕ, ◌+◌, ◌-◌, ◌%◌, ◌^◌, min, none, some, [], ◌∷◌, ◌++◌,
  reverse,
}
use stratum_bee.Crates.{Network}
use stratum_bee.Encoding.Varint.{encode_varint, read_varint}
use stratum_bee.P2p.Announce.{protocol_version}

-- `IpAddr`, with its octets.
pub data IpAddr : Type 0 where
  v4 : Bytes → IpAddr
  v6 : Bytes → IpAddr

-- The octets where they stand, with the services in front and the port in big-endian order behind.
unfoldable pub encode_network_address : IpAddr → ℕ → Bytes
encode_network_address (IpAddr.v4 octets) port =
    zeros 8 ++ (zeros 10 ++ ((0xff ∷ 0xff ∷ []) ++ (octets ++ reverse (to_le_bytes 2 port))))
encode_network_address (IpAddr.v6 octets) port = zeros 8 ++ (octets ++ reverse (to_le_bytes 2 port))

unfoldable pub default_port : Network → ℕ
default_port Network.bitcoin = 8333
default_port Network.testnet = 18333
default_port Network.signet = 38333
default_port Network.regtest = 18444
default_port Network.other_network = 18333

-- The height before the current one, as an `i32`.
unfoldable pub start_height_of : ℕ → ℕ
start_height_of current_height = min (current_height - 1) (2 ^ 31 - 1)

unfoldable pub build_version_payload : ℕ → IpAddr → ℕ → ℕ → ℕ → Text → Bytes
build_version_payload current_height ip port now nonce package_version =
    let user_agent = codes "/stratumbee:" ++ (package_version ++ codes "/") in
    (to_le_bytes 4 protocol_version
      ++ (to_le_bytes 8 0
          ++ (to_le_bytes 8 now
              ++ (encode_network_address ip port
                  ++ (encode_network_address (IpAddr.v4 (zeros 4)) 0 ++ to_le_bytes 8 nonce)))))
    ++ (encode_varint (length user_agent) []
        ++ (user_agent ++ (to_le_bytes 4 (start_height_of current_height) ++ (0 ∷ []))))

-- `i32::from_le_bytes`
abbrev pub from_le_bytes_i32 : Bytes → ℤ
from_le_bytes_i32 bs =
    let n = from_le_bytes bs in if ltb n (2 ^ 31) then ℤ.pos n else ℤ.negsuc (2 ^ 32 - 1 - n)

pub record PeerVersion : Type 0 where
  pub version : ℤ
  pub start_height : ℤ

-- `pos + user_agent_len` wraps at 64 bits.
unfoldable pub parse_peer_version : Bytes → Result PeerVersion
parse_peer_version payload = do
  ensure (leb 80 (length payload)) "version payload too short"
  user_agent ← read_varint payload 80
  let behind = (user_agent.1 + user_agent.0) % 2 ^ 64
  ensure (leb behind (length payload)) "version user_agent exceeds payload"
  ok (record {
    version = from_le_bytes_i32 (take 4 payload);
    start_height = elim (get_range payload behind 4) [
      | some bytes ↦ from_le_bytes_i32 bytes
      | none ↦ ℤ.pos 0
    ];
  })
