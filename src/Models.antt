-- ===== src/Models.antt =====
-- pcap_decode/models.py: the flow keys, packets and streams that the other parts exchange. Texts
-- are lists of code points; the transport names are an enumeration; a timestamp is a whole number
-- of nanoseconds, where the source keeps a float.
pub mod Flow
use Prim.Native.Char.{code}
use Prim.Native.String.{String}
use pcap_decode.Base.{
  ℕ, zero, suc, ◌+◌, ◌/◌, ◌%◌, ◌^◌, ◌++◌, ◌≡◌, ◌↔◌, Bool, true, false, ◌&&◌, not, Option, none,
  some, List, [], ◌∷◌, arith, leb, ltb, if◌then◌else◌,
}
use pcap_decode.Base.Equality.{Eq, ◌==◌, nat_eq, list_eq}
use pcap_decode.Base.Bytes.{Bytes, Result, Error, ok, raise}

abbrev pub Text : Type 0
Text = List ℕ

-- The code points of a literal.
unfoldable pub text : String → Text
text String.[] = []
text (String.◌∷◌ c s) = code c ∷ text s

-- A number in decimal digits, on fuel for its digits.
unfoldable pub digits : ℕ → ℕ → Text
digits zero n = []
digits (suc fuel) n =
    let rest = digits fuel (n / 10) in
    if ltb n 10 then (48 + n) ∷ [] else rest ++ ((48 + n % 10) ∷ [])

unfoldable pub number_text : ℕ → Text
number_text n = digits (suc n) n

-- The most digits that Python turns a number into.
abbrev pub max_str_digits : ℕ
max_str_digits = 4300

-- A number in an f-string, where a packet may make it arbitrarily large.
unfoldable pub decimal_text : ℕ → Result Text
decimal_text n = if ltb n (10 ^ max_str_digits) then ok (number_text n) else raise Error.value_error

-- "TCP", "UDP", "ICMP" and the "UNKNOWN" that a flow key has where a packet names none.
pub data Proto : Type 0 where
  tcp udp icmp unknown : Proto

abbrev pub proto_beq : Proto → Proto → Bool
proto_beq Proto.tcp Proto.tcp = true
proto_beq Proto.udp Proto.udp = true
proto_beq Proto.icmp Proto.icmp = true
proto_beq Proto.unknown Proto.unknown = true
proto_beq _ _ = false

pub proto_beq_iff : (a b : Proto) → (proto_beq a b ≡ true) ↔ (a ≡ b)
proto_beq_iff a b = ground arith

instance abbrev pub proto_eq : Eq Proto
proto_eq = record { beq = proto_beq; beq_iff = proto_beq_iff }

pub text_iff : (s t : Text) → ((s == t) ≡ true) ↔ (s ≡ t)
text_iff s t = list_eq.beq_iff s t

pub record FlowKey : Type 0 where
  pub src_ip : Text
  pub src_port : ℕ
  pub dst_ip : Text
  pub dst_port : ℕ
  pub proto : Proto

abbrev pub flow_beq : FlowKey → FlowKey → Bool
flow_beq j k =
    j.src_ip == k.src_ip
    && (j.src_port == k.src_port
        && (j.dst_ip == k.dst_ip && (j.dst_port == k.dst_port && j.proto == k.proto)))

pub flow_beq_iff : (j k : FlowKey) → (flow_beq j k ≡ true) ↔ (j ≡ k)
flow_beq_iff j k =
    ground
      (arith, text_iff j.src_ip k.src_ip, text_iff j.dst_ip k.dst_ip, proto_beq_iff j.proto k.proto)

instance abbrev pub flow_eq : Eq FlowKey
flow_eq = record { beq = flow_beq; beq_iff = flow_beq_iff }

-- Python's `<=` on two texts.
unfoldable pub text_leb : Text → Text → Bool
text_leb [] t = true
text_leb (c ∷ s) [] = false
text_leb (c ∷ s) (d ∷ t) = if c == d then text_leb s t else ltb c d

-- Python's `<=` on two pairs of an address and a port.
unfoldable pub endpoint_leb : Text → ℕ → Text → ℕ → Bool
unfolding text_leb
endpoint_leb a p b q = if a == b then leb p q else text_leb a b

unfoldable pub reverse : FlowKey → FlowKey
reverse k = record {
  src_ip = k.dst_ip;
  src_port = k.dst_port;
  dst_ip = k.src_ip;
  dst_port = k.src_port;
  proto = k.proto;
}

unfoldable pub normalized : FlowKey → FlowKey
normalized k = if endpoint_leb k.src_ip k.src_port k.dst_ip k.dst_port then k else reverse k

pub record Flags : Type 0 where
  pub fin : Bool
  pub syn : Bool
  pub rst : Bool
  pub psh : Bool
  pub ack : Bool
  pub urg : Bool
  pub ece : Bool
  pub cwr : Bool

-- The flag dictionary of a packet: `{}`, or all eight flags.
pub data FlagDict : Type 0 where
  no_flags : FlagDict
  flags : Flags → FlagDict

-- `flags.get("SYN", False)` and the like.
abbrev pub get_syn : FlagDict → Bool
get_syn no_flags = false
get_syn (flags f) = f.syn

abbrev pub get_fin : FlagDict → Bool
get_fin no_flags = false
get_fin (flags f) = f.fin

abbrev pub get_rst : FlagDict → Bool
get_rst no_flags = false
get_rst (flags f) = f.rst

pub record Packet : Type 0 where
  pub frame_number : ℕ
  pub timestamp : ℕ
  pub link_type : ℕ
  pub raw_data : Bytes
  pub ip_version : Option ℕ
  pub src_ip : Option Text
  pub dst_ip : Option Text
  pub ip_proto : Option ℕ
  pub ip_id : Option ℕ
  pub ip_frag_offset : ℕ
  pub ip_more_frags : Bool
  pub transport_proto : Option Proto
  pub src_port : Option ℕ
  pub dst_port : Option ℕ
  pub seq_num : Option ℕ
  pub ack_num : Option ℕ
  pub tcp_flags : Option FlagDict
  pub payload : Bytes

-- `self.transport_proto or "UNKNOWN"`
abbrev pub proto_or_unknown : Option Proto → Proto
proto_or_unknown none = Proto.unknown
proto_or_unknown (some p) = p

-- The truth of an optional text: `None` and the empty text are false.
abbrev pub is_text : Option Text → Bool
is_text none = false
is_text (some []) = false
is_text (some (c ∷ s)) = true

unfoldable pub flow_key_of :
    Option Text → Option Text → Option ℕ → Option ℕ → Proto → Option FlowKey
flow_key_of (some a) (some b) (some p) (some q) t =
    if is_text (some a) && is_text (some b)
    then some (record { src_ip = a; src_port = p; dst_ip = b; dst_port = q; proto = t })
    else none
flow_key_of _ _ _ _ t = none

-- `Packet.flow_key`
unfoldable pub flow_key : Packet → Option FlowKey
unfolding flow_key_of
flow_key p =
    flow_key_of p.src_ip p.dst_ip p.src_port p.dst_port (proto_or_unknown p.transport_proto)

pub record StreamSegment : Type 0 where
  pub timestamp : ℕ
  pub frame_number : ℕ
  pub seq : ℕ
  pub payload : Bytes

-- `metadata` stays empty in the code modelled here.
pub record TcpStream : Type 0 where
  pub flow : FlowKey
  pub start_time : ℕ
  pub end_time : ℕ
  pub client_to_server : Bytes
  pub server_to_client : Bytes
  pub client_segments : List StreamSegment
  pub server_segments : List StreamSegment
  pub packets_count : ℕ
  pub is_closed : Bool
