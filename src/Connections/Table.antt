-- ===== src/Connections/Table.antt =====
-- tcp_reassembly.py, the connection table: one entry for a conversation, under its normalised key.
use mathlib.Core.Option.{some-injective}
use pcap_decode.Base.{
  ◌+◌, ◌<◌, ◌≡◌, refl, sym, ◌∙◌, ap, subst, inl, inr, Option, none, some, [], ◌∷◌, arith,
  Bool-cases, Option-cases, ℕ, List, ◌++◌, if◌then◌else◌,
}
use pcap_decode.Base.Dict.{lookup, insert, erase, NodupKeys, insert-NodupKeys, erase-NodupKeys}
use pcap_decode.Models.{FlowKey, flow_beq, flow_eq, flow_beq_iff, normalized, Packet, TcpStream}
use pcap_decode.Models.Flow.{normalized-normalized}
use pcap_decode.Connections.{
  ConnectionTracker, TcpReassembler, track, build_stream, find_tracker, tracker_flow, process_flow,
  process_packet, tcp_flow, is_finished, finalize,
}
use pcap_decode.TcpReassembly.{get_data}
use pcap_decode.Base.Bytes.{Bytes}

-- An entry: the key is the normalised flow of the connection, and some packet was counted.
pub record EntryOk (key : FlowKey) (t : ConnectionTracker) : Type 0 where
  pub keyed : normalized t.client_flow ≡ key
  pub counted : 0 < t.packets_count

abbrev pub EntriesOk : TcpReassembler → Type 0
EntriesOk [] = Unit
EntriesOk ((k, t) ∷ conns) = EntryOk k t × EntriesOk conns

-- Every conversation has one entry at most, and every entry is in order.
abbrev pub TableOk : TcpReassembler → Type 0
TableOk conns = NodupKeys conns × EntriesOk conns

pub insert-EntriesOk :
    (k : FlowKey) (t : ConnectionTracker) (conns : TcpReassembler)
    → EntryOk k t
    → EntriesOk conns
    → EntriesOk (insert k t conns)
unfolding insert
insert-EntriesOk k t [] e h = (e, tt)
insert-EntriesOk k t ((j, u) ∷ conns) e h = elim (Bool-cases (flow_beq k j)) [
  | inl same ↦ rw same (subst (λ x. EntryOk x t) ((flow_beq_iff k j).0 same) e, h.1)
  | inr other ↦ rw other (h.0, insert-EntriesOk k t conns e h.1)
]

pub erase-EntriesOk :
    (k : FlowKey) (conns : TcpReassembler) → EntriesOk conns → EntriesOk (erase k conns)
unfolding erase
erase-EntriesOk k [] h = tt
erase-EntriesOk k ((j, u) ∷ conns) h = ground (arith, erase-EntriesOk k conns h.1)

pub lookup-EntriesOk :
    (k : FlowKey) (t : ConnectionTracker) (conns : TcpReassembler)
    → EntriesOk conns
    → lookup k conns ≡ some t
    → EntryOk k t
unfolding lookup
lookup-EntriesOk k t [] h e = cc
lookup-EntriesOk k t ((j, u) ∷ conns) h e = elim (Bool-cases (flow_beq k j)) [
  | inl same ↦
      subst (λ x. EntryOk x t) (sym ((flow_beq_iff k j).0 same))
        (subst (EntryOk j) (some-injective u t (rw same at e)) h.0)
  | inr other ↦ lookup-EntriesOk k t conns h.1 (rw other at e)
]

track_flow : (p : Packet) (t : ConnectionTracker) → (track p t).client_flow ≡ t.client_flow
unfolding track
track_flow p t = refl

pub track_count :
    (p : Packet) (t : ConnectionTracker) → (track p t).packets_count ≡ t.packets_count + 1
unfolding track
track_count p t = refl

normalized-tracker_flow :
    (p : Packet) (flow : FlowKey) → normalized (tracker_flow p flow) ≡ normalized flow
unfolding tracker_flow
normalized-tracker_flow p flow = ground (arith, normalized-normalized flow)

find_tracker-keyed :
    (p : Packet) (flow : FlowKey) (conns : TcpReassembler)
    → EntriesOk conns
    → normalized (find_tracker p flow conns).client_flow ≡ normalized flow
unfolding find_tracker
find_tracker-keyed p flow conns h = elim (Option-cases (lookup (normalized flow) conns)) [
  | inl absent ↦ rw (absent, find_tracker) (normalized-tracker_flow p flow)
  | inr (t, e) ↦ rw (e, find_tracker) (lookup-EntriesOk (normalized flow) t conns h e).keyed
]

tracked-EntryOk :
    (p : Packet) (flow : FlowKey) (conns : TcpReassembler)
    → EntriesOk conns
    → EntryOk (normalized flow) (track p (find_tracker p flow conns))
tracked-EntryOk p flow conns h = record {
  keyed = ap normalized (track_flow p _) ∙ find_tracker-keyed p flow conns h;
  counted = omega (arith, track_count p (find_tracker p flow conns));
}

-- A stream that is handed on belongs to the conversation of the packet.
abbrev pub IsOf : FlowKey → Option TcpStream → Type 0
IsOf flow none = Unit
IsOf flow (some s) = normalized s.flow ≡ normalized flow

process_flow-TableOk :
    (p : Packet) (flow : FlowKey) (conns : TcpReassembler)
    → TableOk conns
    → TableOk (process_flow p flow conns).0 × IsOf flow (process_flow p flow conns).1
unfolding process_flow build_stream
process_flow-TableOk p flow conns (u, h) =
    let k = normalized flow in
    let t = track p (find_tracker p flow conns) in
    let entry = tracked-EntryOk p flow conns h in
    let u1 = insert-NodupKeys k t conns u in
    let h1 = insert-EntriesOk k t conns entry h in
    elim (Bool-cases (is_finished t)) [
      | inl over ↦ rw over (
        (erase-NodupKeys k (insert k t conns) u1, erase-EntriesOk k (insert k t conns) h1),
        entry.keyed,
      )
      | inr open_still ↦ rw open_still ((u1, h1), tt)
    ]

-- `process_packet` keeps the table in order: one entry for a conversation at most, under its
-- normalised key and with at least one packet; and a stream that it returns is the stream of the
-- packet's own conversation.
pub process_packet-TableOk :
    (p : Packet) (conns : TcpReassembler)
    → TableOk conns
    → TableOk (process_packet p conns).0
      × ((flow : FlowKey) → tcp_flow p ≡ some flow → IsOf flow (process_packet p conns).1)
unfolding process_packet
process_packet-TableOk p conns h = elim (Option-cases (tcp_flow p)) [
  | inl other ↦ rw (other, process_packet) (h, λ flow e. tt)
  | inr (flow, e) ↦
      rw (e, process_packet)
        (
          (process_flow-TableOk p flow conns h).0,
          λ flow' e'.
              subst (λ f. IsOf f (process_flow p flow conns).1) (some-injective flow flow' e')
                (process_flow-TableOk p flow conns h).1,
        )
]

-- The data of a stream in both directions, with the number of packets.
abbrev pub Content : Type 0
Content = Bytes × (Bytes × ℕ)

-- What the streams of a conversation hold, in order.
unfoldable pub contents_of : FlowKey → List TcpStream → List Content
contents_of k [] = []
contents_of k (s ∷ ss) =
    let rest = contents_of k ss in
    if flow_beq k (normalized s.flow)
    then (s.client_to_server, (s.server_to_client, s.packets_count)) ∷ rest
    else rest

-- What an entry of the table has collected.
abbrev pub entry_content : Option ConnectionTracker → List Content
entry_content none = []
entry_content (some t) =
    (get_data t.client_to_server, (get_data t.server_to_client, t.packets_count)) ∷ []

contents_of-finalize-cons :
    (k j : FlowKey) (t : ConnectionTracker) (conns : TcpReassembler)
    → EntryOk j t
    → contents_of k (finalize ((j, t) ∷ conns)) ≡ (
        if flow_beq k j
        then entry_content (some t) ++ contents_of k (finalize conns)
        else contents_of k (finalize conns))
unfolding contents_of finalize build_stream
contents_of-finalize-cons k j t conns h =
    let counted = h.counted in let keyed = h.keyed in ground (arith, ap (flow_beq k) keyed)

-- The streams that `finalize` makes of a table in order: for a conversation in the table exactly one,
-- with the data that the two directions of its entry have collected and the packets counted there,
-- and none for any other conversation.
pub finalize_conversations :
    (conns : TcpReassembler) (k : FlowKey)
    → TableOk conns
    → contents_of k (finalize conns) ≡ entry_content (lookup k conns)
unfolding lookup contents_of finalize
finalize_conversations [] k h = refl
finalize_conversations ((j, t) ∷ conns) k ((fresh, u), (e, h)) =
    let rest = finalize_conversations conns k (u, h) in
    contents_of-finalize-cons k j t conns e ∙ elim (Bool-cases (flow_beq k j)) [
      | inl same ↦
          let absent : lookup k conns ≡ none =
            ap (λ q. lookup q conns) ((flow_beq_iff k j).0 same) ∙ fresh in
          rw same (ap (λ l. entry_content (some t) ++ l) (rest ∙ ap entry_content absent))
      | inr other ↦ rw other rest
    ]
