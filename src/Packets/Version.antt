-- ===== src/Packets/Version.antt =====
-- src/packets/version.rs: the first message of a connection.
pub mod RoundTrip
use bitlens_rs.Prelude.{
  ℕ, ◌+◌, ◌^◌, Bool, true, false, not, Option, none, some, [], ◌∷◌, ◌++◌, leb, ◌==◌, if◌then◌else◌,
  get_elem?, ok, ◌>>=◌, add_usize, to_le_bytes,
}
use bitlens_rs.Packets.Buffer.{Bytes, get_u32_le, get_u64_le, with_offset}
use bitlens_rs.Packets.Varstr.{serialize_varstr, deserialize_varstr}
use bitlens_rs.Packets.Array.{Borrowed}
use bitlens_rs.Packets.NetAddr.{NetAddrShort, deserialize_short, serialize_short}

pub record Version : Type 0 where
  pub services : ℕ
  pub timestamp : ℕ
  pub addrrecv : NetAddrShort
  pub addrfrom : NetAddrShort
  pub nonce : ℕ
  pub user_agent : Bytes
  pub start_height : ℕ
  pub version : ℕ
  pub announce_relayed_transactions : Bool

-- The flag, if the version has one and it is there, and whether it is there.
unfoldable pub announce_of : ℕ → Option ℕ → Bool × Bool
announce_of version none = (false, false)
announce_of version (some b) = if leb 70001 version then (not (b == 0), true) else (false, false)

unfoldable pub deserialize : Borrowed Version
deserialize arena buffer = do
  version ← get_u32_le buffer 0
  services ← get_u64_le buffer 4
  timestamp ← get_u64_le buffer 12
  at_recv ← with_offset buffer 20
  (addrrecv, _, arena₁) ← deserialize_short arena at_recv
  at_from ← with_offset buffer 46
  (addrfrom, _, arena₂) ← deserialize_short arena₁ at_from
  nonce ← get_u64_le buffer 72
  at_agent ← with_offset buffer 80
  (user_agent, offset) ← deserialize_varstr at_agent
  start_height ← get_u32_le buffer (add_usize 80 offset)
  let announce = announce_of version (get_elem? buffer (add_usize 84 offset))
  ok (
    record {
      services = services;
      timestamp = timestamp;
      addrrecv = addrrecv;
      addrfrom = addrfrom;
      nonce = nonce;
      user_agent = user_agent;
      start_height = start_height;
      version = version;
      announce_relayed_transactions = announce.0;
    },
    (if announce.1 then add_usize offset 85 else add_usize offset 84),
    arena₂,
  )

unfoldable pub announce_byte : ℕ → Bool → Bytes
announce_byte version flag = if leb 70001 version then (if flag then 1 else 0) ∷ [] else []

unfoldable pub serialize : Version → Bytes
serialize v =
    to_le_bytes 4 v.version
    ++ (to_le_bytes 8 v.services
        ++ (to_le_bytes 8 v.timestamp
            ++ (serialize_short v.addrrecv
                ++ (serialize_short v.addrfrom
                    ++ (to_le_bytes 8 v.nonce
                        ++ ((serialize_varstr v.user_agent).0
                            ++ (to_le_bytes 4 v.start_height
                                ++ announce_byte v.version v.announce_relayed_transactions)))))))
