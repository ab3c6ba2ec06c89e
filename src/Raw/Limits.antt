-- ===== src/Raw/Limits.antt =====
-- protocols/raw.py: every packet is accounted for, and the caps hold.
use pcap_decode.Base.{
  ℕ, ◌+◌, ◌≤◌, ◌≡◌, refl, inl, inr, none, some, List, [], ◌∷◌, ◌++◌, arith, length, if◌then◌else◌,
  Option-cases, length-append,
}
use pcap_decode.Base.Dict.{
  count_of, sum_values, sum_values-increment, lookup, lookup-insert, length-insert,
}
use pcap_decode.Models.{FlowKey, flow_beq, flow_beq_iff, flow_eq, normalized, Packet, flow_key}
use pcap_decode.Raw.{
  reason_eq, RawStreamDecoder, Candidate, count_flow, suppression_reason, suppress, is_eligible,
  parse_udp_packet, parse_packets,
}

-- The packets with a UDP payload long enough.
unfoldable pub eligible_packets : List Packet → ℕ
eligible_packets [] = 0
eligible_packets (p ∷ ps) = (if is_eligible p then 1 else 0) + eligible_packets ps

-- The candidates of a conversation, in either direction.
abbrev is_of : FlowKey → Candidate → ℕ
is_of k c = elim c.flow [ none ↦ 0 | some f ↦ if flow_beq k (normalized f) then 1 else 0 ]

unfoldable pub conversation_candidates : FlowKey → List Candidate → ℕ
conversation_candidates k [] = 0
conversation_candidates k (c ∷ cs) = is_of k c + conversation_candidates k cs

-- The table has at most its number of flows, and no flow more candidates than its cap.
pub record Within (d : RawStreamDecoder) : Type 0 where
  pub flows : length d.udp_flow_counts ≤ d.max_flows
  pub capped : (k : FlowKey) → count_of (lookup k d.udp_flow_counts) ≤ d.max_candidates

suppression_reason_counter :
    (p : Packet) (d : RawStreamDecoder)
    → (suppression_reason p d).1.suppressed_udp_packets ≡ d.suppressed_udp_packets
unfolding suppression_reason count_flow
suppression_reason_counter p d = ground arith

parse_udp_packet_accounts :
    (p : Packet) (d : RawStreamDecoder)
    → length (parse_udp_packet p d).0 + sum_values (parse_udp_packet p d).1.suppressed_udp_packets
      ≡ sum_values d.suppressed_udp_packets + (if is_eligible p then 1 else 0)
unfolding parse_udp_packet suppress
parse_udp_packet_accounts p d = elim (Option-cases (suppression_reason p d).0) [
  | inl free ↦ ground (arith, suppression_reason_counter p d)
  | inr (r, e) ↦ ground (
    arith,
    suppression_reason_counter p d,
    sum_values-increment r (suppression_reason p d).1.suppressed_udp_packets,
  )
]

-- In any run the candidates and the packets counted as suppressed are together the UDP packets
-- whose payload is long enough: none is dropped without being counted.
pub parse_packets_accounts :
    (ps : List Packet) (d : RawStreamDecoder)
    → length (parse_packets ps d).0 + sum_values (parse_packets ps d).1.suppressed_udp_packets
      ≡ sum_values d.suppressed_udp_packets + eligible_packets ps
unfolding parse_packets eligible_packets
parse_packets_accounts [] d = omega arith
parse_packets_accounts (p ∷ ps) d =
    let d' = (parse_udp_packet p d).1 in
    omega (
      arith,
      length-append (parse_udp_packet p d).0 (parse_packets ps d').0,
      parse_udp_packet_accounts p d,
      parse_packets_accounts ps d',
    )

-- No operation changes the limits.
count_flow_limits :
    (k : FlowKey) (d : RawStreamDecoder)
    → ((count_flow k d).1.max_flows ≡ d.max_flows)
      × ((count_flow k d).1.max_candidates ≡ d.max_candidates)
unfolding count_flow
count_flow_limits k d = ground arith

count_flow_flows :
    (k : FlowKey) (d : RawStreamDecoder)
    → length d.udp_flow_counts ≤ d.max_flows
    → length (count_flow k d).1.udp_flow_counts ≤ d.max_flows
unfolding count_flow
count_flow_flows k d h = elim (Option-cases (lookup k d.udp_flow_counts)) [
  | inl new ↦ ground (arith, length-insert k 1 d.udp_flow_counts)
  | inr (seen, e) ↦ ground (arith, length-insert k (seen + 1) d.udp_flow_counts)
]

-- What a call adds to the count of a flow `j`: one candidate, if it gives no reason.
count_flow_count :
    (j k : FlowKey) (d : RawStreamDecoder)
    → count_of (lookup j (count_flow k d).1.udp_flow_counts)
      ≡ elim (count_flow k d).0 [ none ↦ (if flow_beq j k then 1 else 0) | some _ ↦ 0 ]
        + count_of (lookup j d.udp_flow_counts)
unfolding count_flow
count_flow_count j k d = elim (Option-cases (lookup k d.udp_flow_counts)) [
  | inl new ↦ ground (arith, lookup-insert j k 1 d.udp_flow_counts, flow_beq_iff j k)
  | inr (seen, e) ↦ ground (arith, lookup-insert j k (seen + 1) d.udp_flow_counts, flow_beq_iff j k)
]

count_flow_capped :
    (j k : FlowKey) (d : RawStreamDecoder)
    → 1 ≤ d.max_candidates
    → count_of (lookup j d.udp_flow_counts) ≤ d.max_candidates
    → count_of (lookup j (count_flow k d).1.udp_flow_counts) ≤ d.max_candidates
unfolding count_flow
count_flow_capped j k d one h = elim (Option-cases (lookup k d.udp_flow_counts)) [
  | inl new ↦ ground (arith, lookup-insert j k 1 d.udp_flow_counts, flow_beq_iff j k)
  | inr (seen, e) ↦ ground (arith, lookup-insert j k (seen + 1) d.udp_flow_counts, flow_beq_iff j k)
]

-- Candidates are counted where they are made.
parse_udp_packet_count :
    (j : FlowKey) (p : Packet) (d : RawStreamDecoder)
    → count_of (lookup j (parse_udp_packet p d).1.udp_flow_counts)
      ≡ conversation_candidates j (parse_udp_packet p d).0 + count_of (lookup j d.udp_flow_counts)
unfolding parse_udp_packet suppression_reason suppress conversation_candidates
parse_udp_packet_count j p d = elim (Option-cases (flow_key p)) [
  | inl other ↦ ground arith
  | inr (flow, e) ↦ ground (arith, count_flow_count j (normalized flow) d)
]

parse_udp_packet_limits :
    (p : Packet) (d : RawStreamDecoder)
    → ((parse_udp_packet p d).1.max_flows ≡ d.max_flows)
      × ((parse_udp_packet p d).1.max_candidates ≡ d.max_candidates)
unfolding parse_udp_packet suppression_reason suppress
parse_udp_packet_limits p d = elim (Option-cases (flow_key p)) [
  | inl other ↦ ground arith
  | inr (flow, e) ↦ ground (arith, count_flow_limits (normalized flow) d)
]

parse_udp_packet_flows :
    (p : Packet) (d : RawStreamDecoder)
    → length d.udp_flow_counts ≤ d.max_flows
    → length (parse_udp_packet p d).1.udp_flow_counts ≤ d.max_flows
unfolding parse_udp_packet suppression_reason suppress
parse_udp_packet_flows p d h = elim (Option-cases (flow_key p)) [
  | inl other ↦ ground arith
  | inr (flow, e) ↦ ground (arith, count_flow_flows (normalized flow) d h)
]

parse_udp_packet_capped :
    (j : FlowKey) (p : Packet) (d : RawStreamDecoder)
    → 1 ≤ d.max_candidates
    → count_of (lookup j d.udp_flow_counts) ≤ d.max_candidates
    → count_of (lookup j (parse_udp_packet p d).1.udp_flow_counts) ≤ d.max_candidates
unfolding parse_udp_packet suppression_reason suppress
parse_udp_packet_capped j p d one h = elim (Option-cases (flow_key p)) [
  | inl other ↦ ground arith
  | inr (flow, e) ↦ ground (arith, count_flow_capped j (normalized flow) d one h)
]

-- The decoder at the end of a run keeps its limits.
parse_packets-Within :
    (ps : List Packet) (d : RawStreamDecoder)
    → 1 ≤ d.max_candidates
    → Within d
    → Within (parse_packets ps d).1 × ((parse_packets ps d).1.max_candidates ≡ d.max_candidates)
unfolding parse_packets
parse_packets-Within [] d one w = (w, refl)
parse_packets-Within (p ∷ ps) d one w =
    let d' = (parse_udp_packet p d).1 in
    let limits = parse_udp_packet_limits p d in
    let w' : Within d' = record {
      flows = omega (arith, parse_udp_packet_flows p d w.flows);
      capped = λ k. omega (arith, parse_udp_packet_capped k p d one (w.capped k));
    } in
    let (rest, same) = parse_packets-Within ps d' (omega arith) w' in (rest, omega arith)

conversation_candidates-append :
    (k : FlowKey) (cs es : List Candidate)
    → conversation_candidates k (cs ++ es)
      ≡ conversation_candidates k cs + conversation_candidates k es
unfolding conversation_candidates
conversation_candidates-append k [] es = omega arith
conversation_candidates-append k (c ∷ cs) es = omega (arith, conversation_candidates-append k cs es)

parse_packets_count :
    (k : FlowKey) (ps : List Packet) (d : RawStreamDecoder)
    → count_of (lookup k (parse_packets ps d).1.udp_flow_counts)
      ≡ conversation_candidates k (parse_packets ps d).0 + count_of (lookup k d.udp_flow_counts)
unfolding parse_packets conversation_candidates
parse_packets_count k [] d = omega arith
parse_packets_count k (p ∷ ps) d =
    let d' = (parse_udp_packet p d).1 in
    omega (
      arith,
      conversation_candidates-append k (parse_udp_packet p d).0 (parse_packets ps d').0,
      parse_udp_packet_count k p d,
      parse_packets_count k ps d',
    )

-- From a decoder within its limits, with a cap of at least 1, a run over any packets leaves it
-- within them: the table is no larger than its bound; and a conversation gets, in both directions
-- together and with those counted before, at most the cap of candidates.
pub parse_packets_capped :
    (k : FlowKey) (ps : List Packet) (d : RawStreamDecoder)
    → 1 ≤ d.max_candidates
    → Within d
    → Within (parse_packets ps d).1
      × (conversation_candidates k (parse_packets ps d).0 + count_of (lookup k d.udp_flow_counts)
          ≤ d.max_candidates)
parse_packets_capped k ps d one w =
    let (within, same) = parse_packets-Within ps d one w in
    (within, omega (arith, within.capped k, parse_packets_count k ps d))
