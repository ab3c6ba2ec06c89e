-- ===== src/Reader/Decode.antt =====
-- pcap_reader.py, `_decode_packet`: the link layer, then the network and transport headers of one
-- captured frame.
use pcap_decode.Base.{
  ℕ, zero, suc, ◌+◌, ◌/◌, ◌%◌, Bool, true, false, ◌&&◌, ◌||◌, Option, none, some, [], ◌∷◌, ltb, leb,
  ◌==◌, if◌then◌else◌, length, drop,
}
use pcap_decode.Base.Bytes.{
  Bytes, Result, ok, raise, Error, ◌>>=◌, slice, at, unpack, u16, u32, big, Endian,
}
use pcap_decode.Models.{Text, Packet, Proto}
use pcap_decode.Reader.{
  linktype_null, linktype_ethernet, linktype_raw_ip_12, linktype_raw_ip_14, linktype_raw_ip_101,
  linktype_linux_sll, linktype_linux_sll2, ethertype_ipv4, ethertype_ipv6, ethertype_vlan,
  ethertype_qinq, ipproto_icmp, ipproto_tcp, ipproto_udp, parse_ipv4, parse_ipv6, parse_tcp,
  parse_udp, Ipv4, Ipv6,
}

-- `Packet(frame_number=…, timestamp=…, link_type=…, raw_data=…)`
abbrev pub new_packet : ℕ → ℕ → ℕ → Bytes → Packet
new_packet frame time link raw = record {
  frame_number = frame;
  timestamp = time;
  link_type = link;
  raw_data = raw;
  ip_version = none;
  src_ip = none;
  dst_ip = none;
  ip_proto = none;
  ip_id = none;
  ip_frag_offset = 0;
  ip_more_frags = false;
  transport_proto = none;
  src_port = none;
  dst_port = none;
  seq_num = none;
  ack_num = none;
  tcp_flags = none;
  payload = [];
}

-- The `while` loop over VLAN tags: the inner ethertype and the offset behind the tags.
unfoldable pub vlan_tags : ℕ → Bytes → ℕ → ℕ → Result (ℕ × ℕ)
vlan_tags zero raw ethertype offset = raise Error.no_fuel
vlan_tags (suc fuel) raw ethertype offset =
    elim ((ethertype == ethertype_vlan || ethertype == ethertype_qinq)
      && leb (offset + 4) (length raw)) [
        | false ↦ ok (ethertype, offset)
        | true ↦ unpack 2 (slice raw (offset + 2) (offset + 4)) >>= λ inner.
            vlan_tags fuel raw (u16 big inner 0) (offset + 4)
      ]

-- The ethertype, if any, and the network-layer bytes; `none` where the frame is too short.
abbrev pub LinkLayer : Type 0
LinkLayer = Option (Option ℕ × Bytes)

unfoldable pub ethernet_layer : Bytes → Result LinkLayer
ethernet_layer raw = if ltb (length raw) 14 then ok none else (do
  outer ← unpack 2 (slice raw 12 14)
  (ethertype, offset) ← vlan_tags (length raw) raw (u16 big outer 0) 14
  ok (some (some ethertype, drop offset raw)))

unfoldable pub sll_layer : Bytes → Result LinkLayer
sll_layer raw = if ltb (length raw) 16 then ok none else (do
  ethertype ← unpack 2 (slice raw 14 16)
  ok (some (some (u16 big ethertype 0), drop 16 raw)))

unfoldable pub sll2_layer : Bytes → Result LinkLayer
sll2_layer raw = if ltb (length raw) 20 then ok none else (do
  ethertype ← unpack 2 (slice raw 0 2)
  ok (some (some (u16 big ethertype 0), drop 20 raw)))

-- `(raw_data[0] >> 4) & 0x0F`, as an ethertype.
abbrev pub version_ethertype : ℕ → Option ℕ
version_ethertype b =
    if b / 16 % 16 == 4
    then some ethertype_ipv4
    else if b / 16 % 16 == 6
    then some ethertype_ipv6
    else none

unfoldable pub raw_ip_layer : Bytes → Result LinkLayer
raw_ip_layer [] = ok none
raw_ip_layer (x ∷ xs) = do first ← at (x ∷ xs) 0; ok (some (version_ethertype first, x ∷ xs))

-- The address families 2 (IPv4) and 24, 28, 30 (IPv6).
abbrev pub family_ethertype : ℕ → Option ℕ
family_ethertype f =
    if f == 2
    then some ethertype_ipv4
    else if f == 24 || (f == 28 || f == 30)
    then some ethertype_ipv6
    else none

-- Any other link type: a bare IP packet is recognised by its version.
unfoldable pub other_layer : Bytes → Result LinkLayer
other_layer raw =
    if leb 20 (length raw)
    then (do
      first ← at raw 0
      let e = version_ethertype first
      ok (some (e, elim e [ none ↦ [] | some _ ↦ raw ])))
    else ok (some (none, []))

-- The transport header of a packet.
unfoldable pub with_tcp : Packet → Bytes → Result Packet
with_tcp p l4 = do
  t ← parse_tcp l4
  ok (record p {
    transport_proto = some Proto.tcp;
    src_port = some t.src_port;
    dst_port = some t.dst_port;
    seq_num = some t.seq;
    ack_num = some t.ack;
    tcp_flags = some t.tcp_flags;
    payload = t.payload;
  })

unfoldable pub with_udp : Packet → Bytes → Result Packet
with_udp p l4 = do
  u ← parse_udp l4
  ok (record p {
    transport_proto = some Proto.udp;
    src_port = some u.src_port;
    dst_port = some u.dst_port;
    payload = u.payload;
  })

abbrev pub is_proto : Option ℕ → ℕ → Bool
is_proto none n = false
is_proto (some p) n = p == n

-- The fields that an IPv4 header sets.
abbrev pub ipv4_packet : Packet → Ipv4 → Packet
ipv4_packet p ip = record p {
  ip_version = some 4;
  src_ip = ip.src_ip;
  dst_ip = ip.dst_ip;
  ip_proto = ip.proto;
  ip_frag_offset = ip.frag_offset;
  ip_more_frags = ip.more_frags;
}

abbrev pub ipv6_packet : Packet → Ipv6 → Packet
ipv6_packet p ip = record p {
  ip_version = some 6;
  src_ip = ip.src_ip;
  dst_ip = ip.dst_ip;
  ip_proto = ip.proto;
}

unfoldable pub with_ipv4 : Packet → Bytes → Result Packet
with_ipv4 p0 ip_data = do
  ip ← parse_ipv4 ip_data
  let p = ipv4_packet p0 ip
  if is_proto ip.proto ipproto_tcp
      then with_tcp p ip.payload
      else if is_proto ip.proto ipproto_udp
      then with_udp p ip.payload
      else if is_proto ip.proto ipproto_icmp
      then ok (record p { transport_proto = some Proto.icmp; payload = ip.payload })
      else ok p

-- `inet_ntop` is the platform's text form of an IPv6 address, `host` the byte order of the machine
-- that runs the program (`struct`'s "=").
module _ (inet_ntop : Bytes → Text) (host : Endian) where
  unfoldable pub with_ipv6 : Packet → Bytes → Result Packet
  with_ipv6 p0 ip_data = do
    ip ← parse_ipv6 inet_ntop ip_data
    let p = ipv6_packet p0 ip
    if is_proto ip.proto ipproto_tcp
        then with_tcp p ip.payload
        else if is_proto ip.proto ipproto_udp
        then with_udp p ip.payload
        else ok p

  unfoldable pub null_layer : Bytes → Result LinkLayer
  null_layer raw = if ltb (length raw) 4 then ok none else (do
    family ← unpack 4 (slice raw 0 4)
    ok (some (family_ethertype (u32 host family 0), drop 4 raw)))

  -- The chain of tests on the link type.
  unfoldable pub link_layer : ℕ → Bytes → Result LinkLayer
  link_layer link raw =
      if link == linktype_ethernet
      then ethernet_layer raw
      else if link == linktype_linux_sll
      then sll_layer raw
      else if link == linktype_linux_sll2
      then sll2_layer raw
      else if link == linktype_raw_ip_12
          || (link == linktype_raw_ip_14 || link == linktype_raw_ip_101)
      then raw_ip_layer raw
      else if link == linktype_null
      then null_layer raw
      else other_layer raw

  unfoldable pub network_layer : Packet → Option ℕ → Bytes → Result Packet
  network_layer p none ip_data = ok p
  network_layer p (some e) ip_data =
      if e == ethertype_ipv4
      then with_ipv4 p ip_data
      else if e == ethertype_ipv6
      then with_ipv6 p ip_data
      else ok p

  unfoldable pub decode_layer : Packet → LinkLayer → Result Packet
  decode_layer p none = ok p
  decode_layer p (some (ethertype, ip_data)) = network_layer p ethertype ip_data

  -- `_decode_packet`
  unfoldable pub decode_packet : ℕ → ℕ → ℕ → Bytes → Result Packet
  decode_packet frame time link raw = do
    layer ← link_layer link raw
    decode_layer (new_packet frame time link raw) layer
