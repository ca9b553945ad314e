-- ===== src/Packets/NetAddr/RoundTrip.antt =====
-- Network addresses are read back.
use bitlens_rs.Prelude.{
  ℕ, ◌+◌, ◌^◌, ◌<◌, ◌≡◌, refl, sym, arith, some, [], ◌∷◌, ◌++◌, append_assoc, get_elem?, length,
  length-append, add_usize, to_le_bytes, to_be_bytes, length-to_le_bytes, length-to_be_bytes,
}
use bitlens_rs.Packets.Buffer.{
  Bytes, get_range_at, get_u16_at, get_u32_le_at, get_u64_le_at, with_offset_at,
}
use bitlens_rs.Packets.Varint.{serialize_varint, length_varint}
use bitlens_rs.Packets.Varint.RoundTrip.{
  deserialize_varint-serialize_varint, length-serialize_varint, length_varint_bounds,
}
use bitlens_rs.Packets.Varstr.{serialize_varstr, length_varstr}
use bitlens_rs.Packets.Varstr.RoundTrip.{
  length-serialize_varstr, deserialize_varstr-serialize_varstr,
}
use bitlens_rs.Packets.Array.RoundTrip.{Reads}
use bitlens_rs.Packets.Tx.Fields.{no_room}
use bitlens_rs.Packets.NetAddr.{
  NetworkId, error, ipv4, ipv6, onionv2, onionv3, i2p, cjdns, ygg_drasil, to_u8, from_u8,
  NetAddrShort, NetAddr, NetAddrV2, deserialize_short, serialize_short, deserialize, serialize,
  deserialize_v2, serialize_v2,
}

pub record IsNetAddrShort (a : NetAddrShort) : Type 0 where
  pub services_range : a.services < 2 ^ 64
  pub addr_width : length a.addr ≡ 16
  pub port_range : a.port < 2 ^ 16

pub record IsNetAddr (a : NetAddr) : Type 0 where
  pub services_range : a.services < 2 ^ 64
  pub addr_width : length a.addr ≡ 16
  pub time_range : a.time < 2 ^ 32
  pub port_range : a.port < 2 ^ 16

pub record IsNetAddrV2 (a : NetAddrV2) : Type 0 where
  pub services_range : a.services < 2 ^ 64
  pub time_range : a.time < 2 ^ 32
  pub port_range : a.port < 2 ^ 16

pub length-serialize_short : (a : NetAddrShort) → IsNetAddrShort a → length (serialize_short a) ≡ 26
unfolding serialize_short
length-serialize_short a h =
    let s = to_le_bytes 8 a.services in
    let p = to_be_bytes 2 a.port in
    omega (
      arith,
      length-append s (a.addr ++ p),
      length-append a.addr p,
      length-to_le_bytes 8 a.services,
      length-to_be_bytes 2 a.port,
      h.addr_width,
    )

pub short-Reads :
    (a : NetAddrShort)
    → IsNetAddrShort a
    → Reads no_room deserialize_short serialize_short (λ x. x) a
unfolding deserialize_short serialize_short
short-Reads a h arena arena' rest fits room =
    let s = to_le_bytes 8 a.services in
    let p = to_be_bytes 2 a.port in
    let buffer : Bytes = (s ++ (a.addr ++ p)) ++ rest in
    let parts : buffer ≡ s ++ (a.addr ++ (p ++ rest)) = simp append_assoc in
    let parts' : buffer ≡ (s ++ a.addr) ++ (p ++ rest) = simp append_assoc in
    let wide_s = length-to_le_bytes 8 a.services in
    let wide_p = length-to_be_bytes 2 a.port in
    let wide_a = h.addr_width in
    let size : length (s ++ (a.addr ++ p)) ≡ 26 = length-serialize_short a h in
    rw
      (
        get_range_at {buffer = buffer} s a.addr (p ++ rest) parts 8 24 (sym wide_s)
            (omega (arith, h.addr_width)),
        get_u64_le_at {buffer = buffer} [] (a.addr ++ (p ++ rest)) 0 a.services parts refl
            (omega arith) h.services_range,
        get_u16_at {buffer = buffer} (s ++ a.addr) rest 24 a.port parts'
            (omega (arith, length-append s a.addr)) (omega arith) h.port_range,
        size,
      )
      (ground arith)

pub netaddr-Reads : (a : NetAddr) → IsNetAddr a → Reads no_room deserialize serialize (λ x. x) a
unfolding deserialize serialize
netaddr-Reads a h arena arena' rest fits room =
    let t = to_le_bytes 4 a.time in
    let s = to_le_bytes 8 a.services in
    let p = to_be_bytes 2 a.port in
    let buffer : Bytes = (t ++ (s ++ (a.addr ++ p))) ++ rest in
    let parts : buffer ≡ t ++ (s ++ (a.addr ++ (p ++ rest))) = simp append_assoc in
    let parts' : buffer ≡ (t ++ s) ++ (a.addr ++ (p ++ rest)) = simp append_assoc in
    let parts'' : buffer ≡ (t ++ (s ++ a.addr)) ++ (p ++ rest) = simp append_assoc in
    let wide_t = length-to_le_bytes 4 a.time in
    let wide_s = length-to_le_bytes 8 a.services in
    let wide_p = length-to_be_bytes 2 a.port in
    let wide_a = h.addr_width in
    let front = length-append t s in
    let size : length (t ++ (s ++ (a.addr ++ p))) ≡ 30 = omega (
      arith,
      length-append t (s ++ (a.addr ++ p)),
      length-append s (a.addr ++ p),
      length-append a.addr p,
    ) in
    rw
      (
        get_range_at {buffer = buffer} (t ++ s) a.addr (p ++ rest) parts' 12 28 (omega arith)
            (omega (arith, h.addr_width)),
        get_u32_le_at {buffer = buffer} [] (s ++ (a.addr ++ (p ++ rest))) 0 a.time parts refl
            (omega arith) h.time_range,
        get_u64_le_at {buffer = buffer} t (a.addr ++ (p ++ rest)) 4 a.services parts (sym wide_t)
            (omega arith) h.services_range,
        get_u16_at {buffer = buffer} (t ++ (s ++ a.addr)) rest 28 a.port parts''
            (omega (arith, length-append t (s ++ a.addr), length-append s a.addr)) (omega arith)
            h.port_range,
        size,
      )
      (ground arith)

to_u8_lem : (id : NetworkId) → from_u8 (to_u8 id) ≡ some id
unfolding to_u8 from_u8
to_u8_lem error = refl
to_u8_lem ipv4 = refl
to_u8_lem ipv6 = refl
to_u8_lem onionv2 = refl
to_u8_lem onionv3 = refl
to_u8_lem i2p = refl
to_u8_lem cjdns = refl
to_u8_lem ygg_drasil = refl

pub get_elem?-append :
    (pre : Bytes) (b : ℕ) (post : Bytes) → get_elem? (pre ++ (b ∷ post)) (length pre) ≡ some b
get_elem?-append [] b post = refl
get_elem?-append (x ∷ pre) b post = get_elem?-append pre b post

pub v2-Reads :
    (a : NetAddrV2) → IsNetAddrV2 a → Reads no_room deserialize_v2 serialize_v2 (λ x. x) a
unfolding deserialize_v2 serialize_v2
v2-Reads a h arena arena' rest fits room =
    let t = to_le_bytes 4 a.time in
    let s = (serialize_varint a.services).0 in
    let i : Bytes = to_u8 a.network_id ∷ [] in
    let d = (serialize_varstr a.address).0 in
    let p = to_be_bytes 2 a.port in
    let buffer : Bytes = (t ++ (s ++ (i ++ (d ++ p)))) ++ rest in
    let parts : buffer ≡ t ++ (s ++ (i ++ (d ++ (p ++ rest)))) = simp append_assoc in
    let parts' : buffer ≡ (t ++ s) ++ (i ++ (d ++ (p ++ rest))) = simp append_assoc in
    let parts'' : buffer ≡ ((t ++ s) ++ i) ++ (d ++ (p ++ rest)) = simp append_assoc in
    let parts''' : buffer ≡ (((t ++ s) ++ i) ++ d) ++ (p ++ rest) = simp append_assoc in
    let wide_t = length-to_le_bytes 4 a.time in
    let wide_s = length-serialize_varint a.services in
    let bounds_s = length_varint_bounds a.services in
    let wide_d = length-serialize_varstr a.address in
    let bounds_d = length_varint_bounds (length a.address) in
    let wide_d' : length_varstr a.address ≡ length_varint (length a.address) + length a.address =
      unfold length_varstr in refl in
    let wide_p = length-to_be_bytes 2 a.port in
    let front = length-append t s in
    let front' = length-append (t ++ s) i in
    let front'' = length-append ((t ++ s) ++ i) d in
    let size : length (t ++ (s ++ (i ++ (d ++ p)))) ≡ length (((t ++ s) ++ i) ++ d) + 2 = omega (
      arith,
      length-append t (s ++ (i ++ (d ++ p))),
      length-append s (i ++ (d ++ p)),
      length-append i (d ++ p),
      length-append d p,
    ) in
    let total = length-append (t ++ (s ++ (i ++ (d ++ p)))) rest in
    let at_id : add_usize (length_varint a.services) 4 ≡ length (t ++ s) = omega arith in
    let at_d : add_usize (length (t ++ s)) 1 ≡ length ((t ++ s) ++ i) = omega arith in
    let at_p : add_usize (length ((t ++ s) ++ i)) (length_varstr a.address)
        ≡ length (((t ++ s) ++ i) ++ d) =
      omega arith in
    let end : add_usize (length (((t ++ s) ++ i) ++ d)) 2 ≡ length (t ++ (s ++ (i ++ (d ++ p)))) =
      omega arith in
    let id : get_elem? buffer (length (t ++ s)) ≡ some (to_u8 a.network_id) =
      rw parts' (get_elem?-append (t ++ s) (to_u8 a.network_id) (d ++ (p ++ rest))) in
    rw
      (
        get_u32_le_at {buffer = buffer} [] (s ++ (i ++ (d ++ (p ++ rest)))) 0 a.time parts refl
            (omega arith) h.time_range,
        with_offset_at {buffer = buffer} t (s ++ (i ++ (d ++ (p ++ rest)))) 4 parts (sym wide_t),
        deserialize_varint-serialize_varint a.services (i ++ (d ++ (p ++ rest))) h.services_range,
        at_id,
        id,
        to_u8_lem a.network_id,
        at_d,
        with_offset_at {buffer = buffer} ((t ++ s) ++ i) (d ++ (p ++ rest)) (length ((t ++ s) ++ i))
            parts'' refl,
        deserialize_varstr-serialize_varstr a.address (p ++ rest) (omega arith),
        at_p,
        get_u16_at {buffer = buffer} (((t ++ s) ++ i) ++ d) rest (length (((t ++ s) ++ i) ++ d))
            a.port parts''' refl (omega arith) h.port_range,
        end,
      )
      (ground arith)
