-- ===== src/IpReassembly/Datagram.antt =====
-- ip_reassembly.py, `IpDefragmenter.process` as a whole.
use pcap_decode.Base.{
  ℕ, ◌<◌, ◌≡◌, refl, inl, inr, true, false, none, some, List, [], ◌∷◌, ◌++◌, arith, length, All,
  Option-cases,
}
use pcap_decode.Base.Bytes.{Bytes, ok, Endian}
use pcap_decode.Base.Equality.{nat_eq, list_eq, pair_eq}
use pcap_decode.Base.Dict.{lookup, insert, NodupKeys, insert-NodupKeys, lookup-erase_self}
use pcap_decode.Models.{Text, Packet}
use pcap_decode.IpReassembly.{
  FragmentKey, Fragment, IpDefragmenter, is_whole, key_of, fragment_key, fragment_of, fragments_at,
  has_last, reassemble, whole_packet, process_fragment, process,
}
use pcap_decode.IpReassembly.Rebuild.{IsFragment, Covered, reassemble_sound, reassemble-Covered}
use pcap_decode.Reader.Decode.{decode_packet}
use pcap_decode.Reader.Total.{decode_packet_total}

-- The fragments that are at hand once the fragment `p` with the key `k` has come in.
abbrev pub arrived : Packet → FragmentKey → IpDefragmenter → List Fragment
arrived p k d = fragments_at k d ++ (fragment_of p ∷ [])

-- In a dict without double keys, `p` is a fragment with the key `k` and completes its datagram `S`: the fragments at hand for its key are pieces of
-- `S`, cover it and include its last one. Then the whole packet comes out, with `S` for its payload
-- and marked as unfragmented, whatever the order, repetition and overlap of the pieces, and nothing
-- is kept for the key.
pub process_complete :
    (p : Packet) (d : IpDefragmenter) (k : FragmentKey) (S : Bytes)
    → is_whole p ≡ false
    → fragment_key p ≡ some k
    → NodupKeys d
    → All (IsFragment S) (arrived p k d)
    → has_last (arrived p k d) ≡ true
    → ((q : ℕ) → q < length S → Covered q (arrived p k d))
    → ((process p d).1 ≡ some (whole_packet p S)) × (lookup k (process p d).0 ≡ none)
unfolding process process_fragment
process_complete p d k S part keyed u a last c =
    rw (part, keyed, process, reassemble-Covered S (arrived p k d) a last c, process_fragment)
      (
        refl,
        lookup-erase_self k (insert k (arrived p k d) d) (insert-NodupKeys k (arrived p k d) d u),
      )

-- A fragment of the datagram `S`, with pieces of `S` only at hand for its key: a packet that comes
-- out has the payload `S`, never a mixture or a part.
pub process_sound :
    (p q : Packet) (d : IpDefragmenter) (k : FragmentKey) (S : Bytes)
    → is_whole p ≡ false
    → fragment_key p ≡ some k
    → All (IsFragment S) (arrived p k d)
    → (process p d).1 ≡ some q
    → q.payload ≡ S
unfolding process process_fragment
process_sound p q d k S part keyed a e = elim (Option-cases (reassemble (arrived p k d))) [
  | inl waits ↦ ground arith
  | inr (out, found) ↦ ground (arith, reassemble_sound S (arrived p k d) {out = out} a found)
]

-- Without an identification `process` hands the packet back and keeps nothing.
process_without_id : (p : Packet) (d : IpDefragmenter) → p.ip_id ≡ none → process p d ≡ (d, some p)
unfolding process fragment_key key_of
process_without_id p d e = ground arith

-- Whatever frame the reader decodes, the defragmenter hands its packet back as it is and keeps
-- nothing: a packet of the reader is never reassembled.
pub reader_never_defragments :
    (inet_ntop : Bytes → Text) (host : Endian) (frame time link : ℕ) (raw : Bytes)
    (d : IpDefragmenter)
    → (p : Packet) × (decode_packet inet_ntop host frame time link raw ≡ ok p)
      × (process p d ≡ (d, some p))
reader_never_defragments inet_ntop host frame time link raw d =
    let (p, decoded, unset) = decode_packet_total inet_ntop host frame time link raw in
    (p, decoded, process_without_id p d unset)
