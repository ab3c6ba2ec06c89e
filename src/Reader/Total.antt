-- ===== src/Reader/Total.antt =====
-- pcap_reader.py: no frame makes the decoder raise, whatever its bytes and its link type; and what
-- the decoder leaves unset.
use pcap_decode.Base.{
  ℕ, zero, suc, ◌+◌, ◌-◌, ◌*◌, ◌%◌, ◌≤◌, ◌≡◌, refl, Bool, true, false, Option, none, some, [], ◌∷◌,
  arith, length, subst,
}
use pcap_decode.Base.Bytes.{
  Bytes, Result, ok, raise, slice, at, byte, u16, big, Endian, is_ok, at-ok, unpack-slice,
  ok_of_is_ok,
}
use pcap_decode.Models.{Text, Packet}
use pcap_decode.Reader.{
  parse_ipv4, parse_ipv4_fields, parse_ipv6, parse_tcp, parse_udp, ipv6_headers,
}
use pcap_decode.Reader.Decode.{
  vlan_tags, ethernet_layer, sll_layer, sll2_layer, raw_ip_layer, other_layer, null_layer,
  link_layer, LinkLayer, with_tcp, with_udp, with_ipv4, with_ipv6, network_layer, decode_layer,
  decode_packet, new_packet, ipv4_packet, ipv6_packet,
}

parse_ipv4_fields-ok :
    (bytes : Bytes) (ihl : ℕ) → 20 ≤ length bytes → is_ok (parse_ipv4_fields bytes ihl) ≡ true
unfolding parse_ipv4_fields
parse_ipv4_fields-ok bytes ihl h = ground (
  arith,
  unpack-slice 2 bytes 2 4,
  unpack-slice 2 bytes 4 6,
  unpack-slice 2 bytes 6 8,
  at-ok bytes 9,
)

pub parse_ipv4-ok : (bytes : Bytes) → is_ok (parse_ipv4 bytes) ≡ true
unfolding parse_ipv4
parse_ipv4-ok bytes =
    ground (arith, at-ok bytes 0, parse_ipv4_fields-ok bytes (byte bytes 0 % 16 * 4))

pub parse_tcp-ok : (bytes : Bytes) → is_ok (parse_tcp bytes) ≡ true
unfolding parse_tcp
parse_tcp-ok bytes = ground (arith, unpack-slice 14 bytes 0 14)

pub parse_udp-ok : (bytes : Bytes) → is_ok (parse_udp bytes) ≡ true
unfolding parse_udp
parse_udp-ok bytes = ground (arith, unpack-slice 6 bytes 0 6)

-- Every round of the loop moves at least eight bytes on.
ipv6_headers-ok :
    (fuel : ℕ) (bytes : Bytes) (proto offset : ℕ)
    → length bytes ≤ fuel + offset
    → is_ok (ipv6_headers (suc fuel) bytes proto offset) ≡ true
unfolding ipv6_headers
ipv6_headers-ok zero bytes proto offset h = ground arith
ipv6_headers-ok (suc fuel) bytes proto offset h = ground (
  arith,
  at-ok bytes offset,
  at-ok bytes (offset + 1),
  ipv6_headers-ok fuel bytes (byte bytes offset) (offset + (byte bytes (offset + 1) + 1) * 8),
  ipv6_headers-ok fuel bytes (byte bytes offset) (offset + 8),
)

vlan_tags-ok :
    (fuel : ℕ) (raw : Bytes) (ethertype offset : ℕ)
    → length raw ≤ fuel + offset
    → is_ok (vlan_tags (suc fuel) raw ethertype offset) ≡ true
unfolding vlan_tags
vlan_tags-ok zero raw ethertype offset h = ground arith
vlan_tags-ok (suc fuel) raw ethertype offset h = ground (
  arith,
  unpack-slice 2 raw (offset + 2) (offset + 4),
  vlan_tags-ok fuel raw (u16 big (slice raw (offset + 2) (offset + 4)) 0) (offset + 4),
)

ipv6_headers-enough :
    (bytes : Bytes) (proto : ℕ)
    → 40 ≤ length bytes
    → is_ok (ipv6_headers (length bytes) bytes proto 40) ≡ true
ipv6_headers-enough bytes proto h =
    let e : suc (length bytes - 1) ≡ length bytes = omega arith in
    subst (λ f. is_ok (ipv6_headers f bytes proto 40) ≡ true) e
      (ipv6_headers-ok (length bytes - 1) bytes proto 40 (omega arith))

vlan_tags-enough :
    (raw : Bytes) (ethertype : ℕ)
    → 14 ≤ length raw
    → is_ok (vlan_tags (length raw) raw ethertype 14) ≡ true
vlan_tags-enough raw ethertype h =
    let e : suc (length raw - 1) ≡ length raw = omega arith in
    subst (λ f. is_ok (vlan_tags f raw ethertype 14) ≡ true) e
      (vlan_tags-ok (length raw - 1) raw ethertype 14 (omega arith))

ethernet_layer-ok : (raw : Bytes) → is_ok (ethernet_layer raw) ≡ true
unfolding ethernet_layer
ethernet_layer-ok raw =
    ground (arith, unpack-slice 2 raw 12 14, vlan_tags-enough raw (u16 big (slice raw 12 14) 0))

-- What the network layer may do to the packet: it raises nothing and sets no identification.
abbrev pub is_without_id : Result Packet → Bool
is_without_id (ok p) = elim p.ip_id [ none ↦ true | some _ ↦ false ]
is_without_id (raise e) = false

of_is_without_id :
    (m : Result Packet) → is_without_id m ≡ true → (p : Packet) × (m ≡ ok p) × (p.ip_id ≡ none)
of_is_without_id (ok p) h = (p, refl, ground arith)
of_is_without_id (raise e) h = cc

with_tcp_id : (p : Packet) (l4 : Bytes) → p.ip_id ≡ none → is_without_id (with_tcp p l4) ≡ true
unfolding with_tcp
with_tcp_id p l4 e = ground (arith, parse_tcp-ok l4)

with_udp_id : (p : Packet) (l4 : Bytes) → p.ip_id ≡ none → is_without_id (with_udp p l4) ≡ true
unfolding with_udp
with_udp_id p l4 e = ground (arith, parse_udp-ok l4)

with_ipv4_id :
    (p : Packet) (ip_data : Bytes) → p.ip_id ≡ none → is_without_id (with_ipv4 p ip_data) ≡ true
unfolding with_ipv4
with_ipv4_id p ip_data e =
    let (ip, found) = ok_of_is_ok (parse_ipv4 ip_data) (parse_ipv4-ok ip_data) in
    ground (
      arith,
      found,
      with_tcp_id (ipv4_packet p ip) ip.payload e,
      with_udp_id (ipv4_packet p ip) ip.payload e,
    )

sll_layer-ok : (raw : Bytes) → is_ok (sll_layer raw) ≡ true
unfolding sll_layer
sll_layer-ok raw = ground (arith, unpack-slice 2 raw 14 16)

sll2_layer-ok : (raw : Bytes) → is_ok (sll2_layer raw) ≡ true
unfolding sll2_layer
sll2_layer-ok raw = ground (arith, unpack-slice 2 raw 0 2)

raw_ip_layer-ok : (raw : Bytes) → is_ok (raw_ip_layer raw) ≡ true
unfolding raw_ip_layer at
raw_ip_layer-ok [] = refl
raw_ip_layer-ok (x ∷ xs) = refl

other_layer-ok : (raw : Bytes) → is_ok (other_layer raw) ≡ true
unfolding other_layer
other_layer-ok raw = ground (arith, at-ok raw 0)

module _ (inet_ntop : Bytes → Text) (host : Endian) where
  pub parse_ipv6-ok : (bytes : Bytes) → is_ok (parse_ipv6 inet_ntop bytes) ≡ true
  unfolding parse_ipv6
  parse_ipv6-ok bytes =
      ground (arith, unpack-slice 3 bytes 4 7, ipv6_headers-enough bytes (byte (slice bytes 4 7) 2))

  with_ipv6_id :
      (p : Packet) (ip_data : Bytes)
      → p.ip_id ≡ none
      → is_without_id (with_ipv6 inet_ntop host p ip_data) ≡ true
  unfolding with_ipv6
  with_ipv6_id p ip_data e =
      let (ip, found) = ok_of_is_ok (parse_ipv6 inet_ntop ip_data) (parse_ipv6-ok ip_data) in
      ground (
        arith,
        found,
        with_tcp_id (ipv6_packet p ip) ip.payload e,
        with_udp_id (ipv6_packet p ip) ip.payload e,
      )

  null_layer-ok : (raw : Bytes) → is_ok (null_layer inet_ntop host raw) ≡ true
  unfolding null_layer
  null_layer-ok raw = ground (arith, unpack-slice 4 raw 0 4)

  link_layer-ok : (link : ℕ) (raw : Bytes) → is_ok (link_layer inet_ntop host link raw) ≡ true
  unfolding link_layer
  link_layer-ok link raw = ground (
    arith,
    ethernet_layer-ok raw,
    sll_layer-ok raw,
    sll2_layer-ok raw,
    raw_ip_layer-ok raw,
    null_layer-ok raw,
    other_layer-ok raw,
  )

  network_layer_id :
      (p : Packet) (e : Option ℕ) (ip_data : Bytes)
      → p.ip_id ≡ none
      → is_without_id (network_layer inet_ntop host p e ip_data) ≡ true
  unfolding network_layer
  network_layer_id p none ip_data unset = rw (unset, is_without_id)
  network_layer_id p (some e) ip_data unset =
      ground (arith, with_ipv4_id p ip_data unset, with_ipv6_id p ip_data unset)

  decode_layer_id :
      (p : Packet) (layer : LinkLayer)
      → p.ip_id ≡ none
      → is_without_id (decode_layer inet_ntop host p layer) ≡ true
  unfolding decode_layer
  decode_layer_id p none unset = rw (unset, is_without_id)
  decode_layer_id p (some (e, ip_data)) unset = network_layer_id p e ip_data unset

  decode_packet_id :
      (frame time link : ℕ) (raw : Bytes)
      → is_without_id (decode_packet inet_ntop host frame time link raw) ≡ true
  unfolding decode_packet
  decode_packet_id frame time link raw =
      let (layer, found) =
        ok_of_is_ok (link_layer inet_ntop host link raw) (link_layer-ok link raw) in
      rw (found, decode_packet) (decode_layer_id (new_packet frame time link raw) layer refl)

  -- Decoding a frame raises nothing, whatever its bytes and link type, and the packet has no IP
  -- identification.
  pub decode_packet_total :
      (frame time link : ℕ) (raw : Bytes)
      → (p : Packet) × (decode_packet inet_ntop host frame time link raw ≡ ok p) × (p.ip_id ≡ none)
  decode_packet_total frame time link raw =
      of_is_without_id (decode_packet inet_ntop host frame time link raw)
        (decode_packet_id frame time link raw)
