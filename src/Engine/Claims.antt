-- ===== src/Engine/Claims.antt =====
-- engine.py, `decode_file`: a UDP packet that a decoder claims is not carved as raw data.
use pcap_decode.Base.{
  ◌+◌, ◌≤◌, length, ◌≡◌, refl, ◌⊎◌, ◌∙◌, ap, inl, inr, Bool, true, false, ◌&&◌, ◌||◌, not, List, [],
  ◌∷◌, ◌++◌, map, All, All-append, Bool-cases,
}
use pcap_decode.Base.Bytes.{Result, ok, raise, ◌>>=◌, Post, is_ok, IsBytes}
use pcap_decode.Models.{Packet}
use pcap_decode.Raw.{RawStreamDecoder}
use pcap_decode.Bacnet.Npdu
use pcap_decode.Bacnet
use pcap_decode.Dns
use pcap_decode.Bacnet.Safety.{handles-is_ok}
use pcap_decode.Bacnet.Digits.{IsShort, longest}
use pcap_decode.Bacnet.Handling.{process_packet-is_ok}
use pcap_decode.Dns.Safety.{process_packet_total}
use pcap_decode.Engine.Run.{
  Engine, Found, dns_found, bacnet_found, raw_found, Run, claim_dns, claim_bacnet, carve_udp,
  process_udp,
}

abbrev pub is_raw : {O : Type 0} → Found O → Bool
is_raw (raw_found c) = true
is_raw _ = false

abbrev pub NotRaw : {O : Type 0} → Found O → Type 0
NotRaw f = is_raw f ≡ false

-- No raw candidate, and the raw decoder as it was.
abbrev pub Unclaimed : {O E F : Type 0} → RawStreamDecoder → List (Found O) × Run E F → Type 0
Unclaimed raw r = All NotRaw r.0 × (r.1.raw_decoder ≡ raw)

-- A result, and not an exception, of that kind.
abbrev pub LeavesRaw :
    {O E F : Type 0} → RawStreamDecoder → Result (List (Found O) × Run E F) → Type 0
LeavesRaw raw m = (is_ok m ≡ true) × Post (Unclaimed raw) m

raised : false ≡ true → ⊥
raised h = cc

map-NotRaw :
    {O A : Type 0} (f : A → Found O) (xs : List A)
    → ((x : A) → NotRaw (f x))
    → All NotRaw (map f xs)
map-NotRaw f [] h = tt
map-NotRaw f (x ∷ xs) h = (h x, map-NotRaw f xs h)

bind-LeavesRaw :
    {O E F A : Type 0} (raw : RawStreamDecoder) (m : Result A)
    (f : A → Result (List (Found O) × Run E F))
    → is_ok m ≡ true
    → ((a : A) → LeavesRaw raw (f a))
    → LeavesRaw raw (m >>= f)
bind-LeavesRaw raw (ok a) f h k = k a
bind-LeavesRaw raw (raise e) f h k = absurd (raised h)

then-LeavesRaw :
    {O E F : Type 0} (raw : RawStreamDecoder) (m : Result (List (Found O) × Run E F))
    (f : List (Found O) × Run E F → Result (List (Found O) × Run E F))
    → LeavesRaw raw m
    → ((r : List (Found O) × Run E F) → Unclaimed raw r → LeavesRaw raw (f r))
    → LeavesRaw raw (m >>= f)
then-LeavesRaw raw (ok r) f h k = k r h.1
then-LeavesRaw raw (raise e) f h k = absurd (raised h.0)

is_true : Result Bool → Bool
is_true (ok b) = b
is_true (raise e) = false

either_claims : (a b : Bool) → (a ≡ true) ⊎ (ok b ≡ ok true) → (a || b) ≡ true
unfolding is_true
either_claims true b h = refl
either_claims false b (inl h) = absurd (raised h)
either_claims false b (inr h) = ap is_true h

and_not : (a b : Bool) → b ≡ true → (a && not b) ≡ false
and_not true b h = ap not h
and_not false b h = refl

module _ {O E F : Type 0} (engine : Engine O E F) where
  claim_dns-LeavesRaw :
      (raw : RawStreamDecoder) (p : Packet) (st : Run E F)
      → st.raw_decoder ≡ raw
      → LeavesRaw raw (claim_dns engine p st)
  unfolding claim_dns
  claim_dns-LeavesRaw raw p st h = elim (Bool-cases (Dns.handles p)) [
    | inr other ↦ rw (other, claim_dns) (refl, (tt, h))
    | inl taken ↦
        rw (taken, claim_dns)
          (bind-LeavesRaw raw
            (Dns.process_packet engine.b64decode engine.is_dense p st.suspicious_domains) _
            (process_packet_total engine.b64decode engine.is_dense p st.suspicious_domains)
            (λ r. (refl, (map-NotRaw dns_found r.0 (λ x. refl), h))))
  ]

  claim_bacnet-LeavesRaw :
      (raw : RawStreamDecoder) (p : Packet) (taken : Bool) (st : Run E F)
      → IsShort p.payload
      → st.raw_decoder ≡ raw
      → LeavesRaw raw (claim_bacnet engine p taken st)
  unfolding claim_bacnet
  claim_bacnet-LeavesRaw raw p false st s h = (refl, (tt, h))
  claim_bacnet-LeavesRaw raw p true st s h =
      bind-LeavesRaw raw (Bacnet.process_packet p st.bacnet_decoder) _
        (process_packet-is_ok p st.bacnet_decoder s.0 s.1)
        (λ r. (refl, (map-NotRaw bacnet_found r.0 (λ x. refl), h)))

  carve_udp-Unclaimed :
      (claimed : Bool) (p : Packet) (st : Run E F)
      → claimed ≡ true
      → Unclaimed st.raw_decoder (carve_udp engine claimed p st)
  unfolding carve_udp
  carve_udp-Unclaimed claimed p st h = rw (and_not engine.carve_raw_streams claimed h) (tt, refl)

  -- The rest of `process_udp`, when it is known whether the BACnet decoder takes the packet.
  rest-LeavesRaw :
      (raw : RawStreamDecoder) (p : Packet) (taken : Result Bool) (dns : List (Found O) × Run E F)
      → IsShort p.payload
      → is_ok taken ≡ true
      → (Dns.handles p ≡ true) ⊎ (taken ≡ ok true)
      → Unclaimed raw dns
      → LeavesRaw raw (
          taken >>= λ b. claim_bacnet engine p b dns.1 >>= λ bacnet. ok (
            dns.0 ++ (bacnet.0 ++ (carve_udp engine (Dns.handles p || b) p bacnet.1).0),
            (carve_udp engine (Dns.handles p || b) p bacnet.1).1,
          ))
  rest-LeavesRaw raw p (raise e) dns s k h d = absurd (raised k)
  rest-LeavesRaw raw p (ok b) dns s k h d =
      let claimed : (Dns.handles p || b) ≡ true = either_claims (Dns.handles p) b h in
      then-LeavesRaw raw (claim_bacnet engine p b dns.1) _
        (claim_bacnet-LeavesRaw raw p b dns.1 s d.1)
        (λ bacnet u.
          let last = carve_udp-Unclaimed (Dns.handles p || b) p bacnet.1 claimed in
          (
            refl,
            (All-append NotRaw dns.0 _ d.0 (All-append NotRaw bacnet.0 _ u.0 last.0), last.1 ∙ u.1),
          ))

-- A UDP packet with at most 1785 bytes of payload that the DNS decoder or the BACnet decoder claims
-- leads to no exception and to no raw candidate, and the raw decoder does not count it.
pub process_udp-LeavesRaw :
    {O E F : Type 0} (engine : Engine O E F) (p : Packet) (st : Run E F)
    → IsBytes p.payload
    → length p.payload ≤ longest
    → (Dns.handles p ≡ true) ⊎ (Bacnet.Npdu.handles p ≡ ok true)
    → LeavesRaw st.raw_decoder (process_udp engine p st)
unfolding process_udp
process_udp-LeavesRaw engine p st b small h =
    let raw = st.raw_decoder in
    then-LeavesRaw raw
      (claim_dns engine p (record st { udp_packets_count = st.udp_packets_count + 1 })) _
      (claim_dns-LeavesRaw engine raw p (record st { udp_packets_count = st.udp_packets_count + 1 })
        refl)
      (λ dns d.
        rest-LeavesRaw engine raw p (Bacnet.Npdu.handles p) dns (b, small) (handles-is_ok p) h d)
