-- ===== src/Packets/Version/RoundTrip.antt =====
-- A version message is read back.
use bitlens_rs.Prelude.{
  ℕ, ◌+◌, ◌^◌, ◌<◌, ◌≡◌, inl, inr, refl, sym, ap, ◌∙◌, arith, Bool, true, false, Bool-cases, Option,
  none, some, [], ◌++◌, append_assoc, leb, if◌then◌else◌, get_elem?, length, length-append,
  add_usize, to_le_bytes, length-to_le_bytes,
}
use bitlens_rs.Packets.Buffer.{Bytes, IsSlice, get_u32_le_at, get_u64_le_at, with_offset_at}
use bitlens_rs.Packets.Varint.{length_varint}
use bitlens_rs.Packets.Varint.RoundTrip.{length_varint_bounds}
use bitlens_rs.Packets.Varstr.{serialize_varstr, length_varstr}
use bitlens_rs.Packets.Varstr.RoundTrip.{
  length-serialize_varstr, deserialize_varstr-serialize_varstr,
}
use bitlens_rs.Packets.Array.RoundTrip.{Reads}
use bitlens_rs.Packets.Tx.Fields.{no_room}
use bitlens_rs.Packets.NetAddr.{serialize_short}
use bitlens_rs.Packets.NetAddr.RoundTrip.{
  IsNetAddrShort, length-serialize_short, short-Reads, get_elem?-append,
}
use bitlens_rs.Packets.Version.{Version, announce_of, announce_byte, deserialize, serialize}

-- What the fields hold; before version 70001 there is no flag to send.
pub record IsVersion (v : Version) : Type 0 where
  pub version_range : v.version < 2 ^ 32
  pub services_range : v.services < 2 ^ 64
  pub timestamp_range : v.timestamp < 2 ^ 64
  pub addrrecv_valid : IsNetAddrShort v.addrrecv
  pub addrfrom_valid : IsNetAddrShort v.addrfrom
  pub nonce_range : v.nonce < 2 ^ 64
  pub start_height_range : v.start_height < 2 ^ 32
  pub no_flag : v.version < 70001 → v.announce_relayed_transactions ≡ false

announce_of_old :
    (version : ℕ) (byte : Option ℕ)
    → leb 70001 version ≡ false
    → announce_of version byte ≡ (false, false)
unfolding announce_of
announce_of_old version none e = refl
announce_of_old version (some b) e = rw e refl

announce_of_new :
    (version : ℕ) (flag : Bool)
    → leb 70001 version ≡ true
    → announce_of version (some (if flag then 1 else 0)) ≡ (flag, true)
unfolding announce_of
announce_of_new version true e = rw e refl
announce_of_new version false e = rw e refl

announce_lem :
    (version : ℕ) (flag : Bool) (pre rest : Bytes)
    → (version < 70001 → flag ≡ false)
    → announce_of version (get_elem? (pre ++ (announce_byte version flag ++ rest)) (length pre))
      ≡ (flag, leb 70001 version)
unfolding announce_byte
announce_lem version flag pre rest h = elim (Bool-cases (leb 70001 version)) [
  | inl new ↦
      rw (new, get_elem?-append pre (if flag then 1 else 0) rest) (announce_of_new version flag new)
  | inr old ↦
      let off : flag ≡ false = h (ground arith) in
      rw (off, old) (announce_of_old version (get_elem? (pre ++ rest) (length pre)) old)
]

length-announce_byte :
    (version : ℕ) (flag : Bool)
    → length (announce_byte version flag) ≡ (if leb 70001 version then 1 else 0)
unfolding announce_byte
length-announce_byte version flag = ground arith

pub version-Reads : (v : Version) → IsVersion v → Reads no_room deserialize serialize (λ x. x) v
unfolding deserialize serialize
version-Reads v h arena arena' rest fits room =
    let a = to_le_bytes 4 v.version in
    let b = to_le_bytes 8 v.services in
    let c = to_le_bytes 8 v.timestamp in
    let d = serialize_short v.addrrecv in
    let e = serialize_short v.addrfrom in
    let f = to_le_bytes 8 v.nonce in
    let g = (serialize_varstr v.user_agent).0 in
    let i = to_le_bytes 4 v.start_height in
    let j = announce_byte v.version v.announce_relayed_transactions in
    let whole : Bytes = a ++ (b ++ (c ++ (d ++ (e ++ (f ++ (g ++ (i ++ j))))))) in
    let buffer : Bytes = whole ++ rest in
    let p₁ : Bytes = a in
    let p₂ : Bytes = a ++ b in
    let p₃ : Bytes = p₂ ++ c in
    let p₄ : Bytes = p₃ ++ d in
    let p₅ : Bytes = p₄ ++ e in
    let p₆ : Bytes = p₅ ++ f in
    let p₇ : Bytes = p₆ ++ g in
    let p₈ : Bytes = p₇ ++ i in
    let t₈ : Bytes = j ++ rest in
    let t₇ : Bytes = i ++ t₈ in
    let t₆ : Bytes = g ++ t₇ in
    let t₅ : Bytes = f ++ t₆ in
    let t₄ : Bytes = e ++ t₅ in
    let t₃ : Bytes = d ++ t₄ in
    let t₂ : Bytes = c ++ t₃ in
    let t₁ : Bytes = b ++ t₂ in
    let n₁ : length p₁ ≡ 4 = length-to_le_bytes 4 v.version in
    let n₂ : length p₂ ≡ 12 = omega (arith, length-append a b, length-to_le_bytes 8 v.services) in
    let n₃ : length p₃ ≡ 20 = omega (arith, length-append p₂ c, length-to_le_bytes 8 v.timestamp) in
    let n₄ : length p₄ ≡ 46 =
      omega (arith, length-append p₃ d, length-serialize_short v.addrrecv h.addrrecv_valid) in
    let n₅ : length p₅ ≡ 72 =
      omega (arith, length-append p₄ e, length-serialize_short v.addrfrom h.addrfrom_valid) in
    let n₆ : length p₆ ≡ 80 = omega (arith, length-append p₅ f, length-to_le_bytes 8 v.nonce) in
    let agent = length_varstr v.user_agent in
    let n₇ : length p₇ ≡ 80 + agent =
      omega (arith, length-append p₆ g, length-serialize_varstr v.user_agent) in
    let n₈ : length p₈ ≡ 84 + agent =
      omega (arith, length-append p₇ i, length-to_le_bytes 4 v.start_height) in
    let last = length-announce_byte v.version v.announce_relayed_transactions in
    let regroup : whole ≡ p₈ ++ j = simp append_assoc in
    let size : length whole ≡ 84 + agent + length j =
      ap length regroup ∙ omega (arith, length-append p₈ j) in
    let total = length-append whole rest in
    let agent_is : agent ≡ length_varint (length v.user_agent) + length v.user_agent =
      unfold length_varstr in refl in
    let bounds = length_varint_bounds (length v.user_agent) in
    let parts₈ : buffer ≡ p₈ ++ t₈ = simp append_assoc in
    let flag : announce_of v.version (get_elem? buffer (84 + agent))
        ≡ (v.announce_relayed_transactions, leb 70001 v.version) =
      rw (parts₈, ← n₈)
        (announce_lem v.version v.announce_relayed_transactions p₈ rest h.no_flag) in
    let at_height : add_usize 80 agent ≡ 80 + agent = omega arith in
    let at_flag : add_usize 84 agent ≡ 84 + agent = omega arith in
    let end : (if leb 70001 v.version then add_usize agent 85 else add_usize agent 84)
        ≡ length whole =
      elim (Bool-cases (leb 70001 v.version)) [
        | inl new ↦ rw new (let one = rw new at last in omega arith)
        | inr old ↦ rw old (let none_there = rw old at last in omega arith)
      ] in
    let parts₃ : buffer ≡ p₃ ++ t₃ = simp append_assoc in
    let parts₄ : buffer ≡ p₄ ++ t₄ = simp append_assoc in
    let fits₃ : IsSlice t₃ = omega (arith, ap length parts₃, length-append p₃ t₃) in
    let fits₄ : IsSlice t₄ = omega (arith, ap length parts₄, length-append p₄ t₄) in
    rw
      (
        get_u32_le_at {buffer = buffer} [] t₁ 0 v.version (simp append_assoc) refl (omega arith)
            h.version_range,
        get_u64_le_at {buffer = buffer} p₁ t₂ 4 v.services (simp append_assoc) (sym n₁)
            (omega arith) h.services_range,
        get_u64_le_at {buffer = buffer} p₂ t₃ 12 v.timestamp (simp append_assoc) (sym n₂)
            (omega arith) h.timestamp_range,
        with_offset_at {buffer = buffer} p₃ t₃ 20 (simp append_assoc) (sym n₃),
        short-Reads v.addrrecv h.addrrecv_valid arena arena t₄ fits₃ refl,
        with_offset_at {buffer = buffer} p₄ t₄ 46 (simp append_assoc) (sym n₄),
        short-Reads v.addrfrom h.addrfrom_valid arena arena t₅ fits₄ refl,
        get_u64_le_at {buffer = buffer} p₅ t₆ 72 v.nonce (simp append_assoc) (sym n₅) (omega arith)
            h.nonce_range,
        with_offset_at {buffer = buffer} p₆ t₆ 80 (simp append_assoc) (sym n₆),
        deserialize_varstr-serialize_varstr v.user_agent t₇ (omega arith),
        at_height,
        get_u32_le_at {buffer = buffer} p₇ t₈ (80 + agent) v.start_height (simp append_assoc)
            (sym n₇) (omega arith) h.start_height_range,
        at_flag,
        flag,
        end,
      )
      (ground arith)
