-- ===== src/Packets/NetAddr.antt =====
-- src/packets/netaddr.rs and src/packets/network_id.rs: the three forms of a network address.
pub mod RoundTrip
use bitlens_rs.Prelude.{
  ℕ, ◌+◌, ◌%◌, ◌^◌, Option, none, some, [], ◌∷◌, ◌++◌, ◌==◌, if◌then◌else◌, get_elem?, ok, ok_or,
  ◌>>=◌, not_enough_bytes, invalid_network_id, add_usize, to_le_bytes, to_be_bytes,
}
use bitlens_rs.Packets.Buffer.{Bytes, get_range, get_u16, get_u32_le, get_u64_le, with_offset}
use bitlens_rs.Packets.Varint.{serialize_varint, deserialize_varint}
use bitlens_rs.Packets.Varstr.{serialize_varstr, deserialize_varstr}
use bitlens_rs.Packets.Array.{Borrowed}

pub data NetworkId : Type 0 where
  error ipv4 ipv6 onionv2 onionv3 i2p cjdns ygg_drasil : NetworkId

unfoldable pub to_u8 : NetworkId → ℕ
to_u8 error = 0
to_u8 ipv4 = 1
to_u8 ipv6 = 2
to_u8 onionv2 = 3
to_u8 onionv3 = 4
to_u8 i2p = 5
to_u8 cjdns = 6
to_u8 ygg_drasil = 7

unfoldable pub from_u8 : ℕ → Option NetworkId
from_u8 n =
    if n == 0
    then some error
    else if n == 1
    then some ipv4
    else if n == 2
    then some ipv6
    else if n == 3
    then some onionv2
    else if n == 4
    then some onionv3
    else if n == 5
    then some i2p
    else if n == 6
    then some cjdns
    else if n == 7
    then some ygg_drasil
    else none

pub record NetAddrShort : Type 0 where
  pub services : ℕ
  pub addr : Bytes
  pub port : ℕ

pub record NetAddr : Type 0 where
  pub services : ℕ
  pub addr : Bytes
  pub time : ℕ
  pub port : ℕ

pub record NetAddrV2 : Type 0 where
  pub address : Bytes
  pub services : ℕ
  pub time : ℕ
  pub port : ℕ
  pub network_id : NetworkId

unfoldable pub deserialize_short : Borrowed NetAddrShort
deserialize_short arena buffer = do
  addr ← ok_or (get_range buffer 8 24) not_enough_bytes
  services ← get_u64_le buffer 0
  port ← get_u16 buffer 24
  ok (record { services = services; addr = addr; port = port }, 26, arena)

unfoldable pub serialize_short : NetAddrShort → Bytes
serialize_short a = to_le_bytes 8 a.services ++ (a.addr ++ to_be_bytes 2 a.port)

unfoldable pub deserialize : Borrowed NetAddr
deserialize arena buffer = do
  addr ← ok_or (get_range buffer 12 28) not_enough_bytes
  time ← get_u32_le buffer 0
  services ← get_u64_le buffer 4
  port ← get_u16 buffer 28
  ok (record { services = services; addr = addr; time = time; port = port }, 30, arena)

unfoldable pub serialize : NetAddr → Bytes
serialize a = to_le_bytes 4 a.time ++ (to_le_bytes 8 a.services ++ (a.addr ++ to_be_bytes 2 a.port))

unfoldable pub deserialize_v2 : Borrowed NetAddrV2
deserialize_v2 arena buffer = do
  time ← get_u32_le buffer 0
  at_services ← with_offset buffer 4
  (services, services_len) ← deserialize_varint at_services
  let offset = add_usize services_len 4
  raw_id ← ok_or (get_elem? buffer offset) not_enough_bytes
  network_id ← ok_or (from_u8 raw_id) invalid_network_id
  at_address ← with_offset buffer (add_usize offset 1)
  (address, address_len) ← deserialize_varstr at_address
  let end = add_usize (add_usize offset 1) address_len
  port ← get_u16 buffer end
  ok (
    record {
      address = address;
      services = services;
      time = time;
      port = port;
      network_id = network_id;
    },
    add_usize end 2,
    arena,
  )

unfoldable pub serialize_v2 : NetAddrV2 → Bytes
serialize_v2 a =
    to_le_bytes 4 a.time
    ++ ((serialize_varint a.services).0
        ++ ((to_u8 a.network_id ∷ []) ++ ((serialize_varstr a.address).0 ++ to_be_bytes 2 a.port)))
