-- ===== src/Reader.antt =====
-- pcap_decode/pcap_reader.py, the header parsers: IPv4, IPv6, TCP and UDP. A parser that could meet
-- an exception returns a `Result`.
pub mod Decode
pub mod File
pub mod Total
use pcap_decode.Base.{
  ℕ, zero, suc, ◌+◌, ◌-◌, ◌*◌, ◌/◌, ◌%◌, min, Bool, true, false, ◌&&◌, ◌||◌, Option, none, some,
  List, [], ◌∷◌, ◌++◌, ltb, leb, ◌==◌, if◌then◌else◌, length, drop,
}
use pcap_decode.Base.Bytes.{
  Bytes, Result, ok, raise, Error, ◌>>=◌, slice, at, unpack, byte, u16, u32, big, bit,
}
use pcap_decode.Models.{Text, Flags, FlagDict, no_flags, flags}

abbrev pub linktype_null : ℕ
linktype_null = 0

abbrev pub linktype_ethernet : ℕ
linktype_ethernet = 1

abbrev pub linktype_raw_ip_12 : ℕ
linktype_raw_ip_12 = 12

abbrev pub linktype_raw_ip_14 : ℕ
linktype_raw_ip_14 = 14

abbrev pub linktype_raw_ip_101 : ℕ
linktype_raw_ip_101 = 101

abbrev pub linktype_linux_sll : ℕ
linktype_linux_sll = 113

abbrev pub linktype_linux_sll2 : ℕ
linktype_linux_sll2 = 276

abbrev pub ethertype_ipv4 : ℕ
ethertype_ipv4 = 0x0800

abbrev pub ethertype_ipv6 : ℕ
ethertype_ipv6 = 0x86dd

abbrev pub ethertype_vlan : ℕ
ethertype_vlan = 0x8100

abbrev pub ethertype_qinq : ℕ
ethertype_qinq = 0x88a8

abbrev pub ipproto_icmp : ℕ
ipproto_icmp = 1

abbrev pub ipproto_tcp : ℕ
ipproto_tcp = 6

abbrev pub ipproto_udp : ℕ
ipproto_udp = 17

-- A byte in decimal digits.
unfoldable pub decimal : ℕ → Text
decimal n =
    if ltb n 10
    then (b'0' + n) ∷ []
    else if ltb n 100
    then (b'0' + n / 10) ∷ (b'0' + n % 10) ∷ []
    else (b'0' + n / 100) ∷ (b'0' + n / 10 % 10) ∷ (b'0' + n % 10) ∷ []

-- `socket.inet_ntoa` of four bytes: dotted decimal.
unfoldable pub inet_ntoa : Bytes → Text
unfolding decimal
inet_ntoa d =
    decimal (byte d 0)
    ++ (b'.' ∷ (decimal (byte d 1) ++ (b'.' ∷ (decimal (byte d 2) ++ (b'.' ∷ decimal (byte d 3))))))

-- What `parse_ipv4` returns: addresses, protocol, fragment offset, more-fragments flag, payload.
pub record Ipv4 : Type 0 where
  pub src_ip : Option Text
  pub dst_ip : Option Text
  pub proto : Option ℕ
  pub frag_offset : ℕ
  pub more_frags : Bool
  pub payload : Bytes

abbrev pub no_ipv4 : Ipv4
no_ipv4 = record {
  src_ip = none;
  dst_ip = none;
  proto = none;
  frag_offset = 0;
  more_frags = false;
  payload = [];
}

-- `min(len(data), total_len) if total_len > 0 else len(data)`
abbrev pub payload_end : Bytes → ℕ → ℕ
payload_end bytes total_len = if ltb 0 total_len then min (length bytes) total_len else length bytes

-- `parse_ipv4` past its two length tests. The identification is read and not returned.
unfoldable pub parse_ipv4_fields : Bytes → ℕ → Result Ipv4
parse_ipv4_fields bytes ihl = do
  total ← unpack 2 (slice bytes 2 4)
  ip_id ← unpack 2 (slice bytes 4 6)
  flags_fo ← unpack 2 (slice bytes 6 8)
  proto ← at bytes 9
  ok (record {
    src_ip = some (inet_ntoa (slice bytes 12 16));
    dst_ip = some (inet_ntoa (slice bytes 16 20));
    proto = some proto;
    frag_offset = u16 big flags_fo 0 % 8192 * 8;
    more_frags = bit (u16 big flags_fo 0) 13;
    payload = slice bytes ihl (payload_end bytes (u16 big total 0));
  })

unfoldable pub parse_ipv4 : Bytes → Result Ipv4
parse_ipv4 bytes = if ltb (length bytes) 20 then ok no_ipv4 else (do
  version_ihl ← at bytes 0
  let ihl = version_ihl % 16 * 4
  if ltb (length bytes) ihl then ok no_ipv4 else parse_ipv4_fields bytes ihl)

-- What `parse_ipv6` returns.
pub record Ipv6 : Type 0 where
  pub src_ip : Option Text
  pub dst_ip : Option Text
  pub proto : Option ℕ
  pub payload : Bytes

abbrev pub no_ipv6 : Ipv6
no_ipv6 = record { src_ip = none; dst_ip = none; proto = none; payload = [] }

-- Hop-by-hop, routing and destination options.
abbrev pub is_ipv6_extension : ℕ → Bool
is_ipv6_extension p = p == 0 || (p == 43 || p == 60)

abbrev pub ipproto_ipv6_frag : ℕ
ipproto_ipv6_frag = 44

-- The `while` loop over the extension headers: the protocol and the offset of the payload.
unfoldable pub ipv6_headers : ℕ → Bytes → ℕ → ℕ → Result (ℕ × ℕ)
ipv6_headers zero bytes proto offset = raise Error.no_fuel
ipv6_headers (suc fuel) bytes proto offset = elim (ltb offset (length bytes)) [
  | false ↦ ok (proto, offset)
  | true ↦ elim (is_ipv6_extension proto) [
    | true ↦ elim (ltb (length bytes) (offset + 2)) [
      | true ↦ ok (proto, offset)
      | false ↦ at bytes offset >>= λ nxt. at bytes (offset + 1) >>= λ hdr_len.
          ipv6_headers fuel bytes nxt (offset + (hdr_len + 1) * 8)
    ]
    | false ↦ elim (proto == ipproto_ipv6_frag) [
      | true ↦ elim (ltb (length bytes) (offset + 8)) [
        | true ↦ ok (proto, offset)
        | false ↦ at bytes offset >>= λ nxt. ipv6_headers fuel bytes nxt (offset + 8)
      ]
      | false ↦ ok (proto, offset)
    ]
  ]
]

-- `inet_ntop` is the platform's text form of an IPv6 address.
module _ (inet_ntop : Bytes → Text) where
  unfoldable pub parse_ipv6 : Bytes → Result Ipv6
  parse_ipv6 bytes = if ltb (length bytes) 40 then ok no_ipv6 else (do
    fixed ← unpack 3 (slice bytes 4 7)
    (proto, offset) ← ipv6_headers (length bytes) bytes (byte fixed 2) 40
    ok (record {
      src_ip = some (inet_ntop (slice bytes 8 24));
      dst_ip = some (inet_ntop (slice bytes 24 40));
      proto = some proto;
      payload = drop offset bytes;
    }))

-- What `parse_tcp` returns.
pub record Tcp : Type 0 where
  pub src_port : ℕ
  pub dst_port : ℕ
  pub seq : ℕ
  pub ack : ℕ
  pub tcp_flags : FlagDict
  pub payload : Bytes

abbrev pub no_tcp : Tcp
no_tcp = record { src_port = 0; dst_port = 0; seq = 0; ack = 0; tcp_flags = no_flags; payload = [] }

unfoldable pub flags_of_byte : ℕ → Flags
flags_of_byte b = record {
  fin = bit b 0;
  syn = bit b 1;
  rst = bit b 2;
  psh = bit b 3;
  ack = bit b 4;
  urg = bit b 5;
  ece = bit b 6;
  cwr = bit b 7;
}

unfoldable pub parse_tcp : Bytes → Result Tcp
parse_tcp bytes = if ltb (length bytes) 20 then ok no_tcp else (do
  h ← unpack 14 (slice bytes 0 14)
  let data_offset = byte h 12 / 16 % 16 * 4
  let short = ltb (length bytes) data_offset
  ok (record {
    src_port = u16 big h 0;
    dst_port = u16 big h 2;
    seq = u32 big h 4;
    ack = u32 big h 8;
    tcp_flags = if short then no_flags else flags (flags_of_byte (byte h 13));
    payload = if short then [] else drop data_offset bytes;
  }))

-- What `parse_udp` returns.
pub record Udp : Type 0 where
  pub src_port : ℕ
  pub dst_port : ℕ
  pub payload : Bytes

abbrev pub no_udp : Udp
no_udp = record { src_port = 0; dst_port = 0; payload = [] }

unfoldable pub parse_udp : Bytes → Result Udp
parse_udp bytes = if ltb (length bytes) 8 then ok no_udp else (do
  h ← unpack 6 (slice bytes 0 6)
  let len = u16 big h 4
  ok (record {
    src_port = u16 big h 0;
    dst_port = u16 big h 2;
    payload = if leb 8 len && leb len (length bytes) then slice bytes 8 len else drop 8 bytes;
  }))
