-- ===== src/IpReassembly/Rebuild.antt =====
-- ip_reassembly.py, the sort and the loop over the fragments of one datagram `S`.
use native.Mathlib.Decide.{dec_lt}
use pcap_decode.Base.{
  ℕ, ◌+◌, ◌-◌, ◌≤◌, ◌<◌, ◌≡◌, ◌≢◌, refl, ◌∙◌, ap, ◌⊎◌, inl, inr, true, false, ◌&&◌, ◌||◌, not, none,
  some, List, [], ◌∷◌, arith, ltb, leb, ◌==◌, length, take, drop, take-length, All, Bool-cases,
  Option-cases, ltb→lt, leb→le, append-take, drop-slice,
}
use pcap_decode.Base.Bytes.{Bytes}
use pcap_decode.IpReassembly.{
  Fragment, has_last, insert_by_offset, sort_by_offset, offset_after, rebuilt_after, rebuild,
  reassemble,
}

-- Sorted by offset: no fragment starts before one that stands in front of it.
abbrev pub IsSorted : List Fragment → Type 0
IsSorted [] = Unit
IsSorted (f ∷ fs) = All (λ g. f.offset ≤ g.offset) fs × IsSorted fs

-- The byte `q` lies in some fragment.
abbrev pub Covered : ℕ → List Fragment → Type 0
Covered q [] = ⊥
Covered q (f ∷ fs) = ((f.offset ≤ q) × (q < f.offset + length f.payload)) ⊎ Covered q fs

All-insert_by_offset {ℓ} :
    (P : Fragment → Type ℓ) (f : Fragment) (fs : List Fragment)
    → P f
    → All P fs
    → All P (insert_by_offset f fs)
unfolding insert_by_offset
All-insert_by_offset P f [] h a = (h, tt)
All-insert_by_offset P f (g ∷ gs) h a = elim (Bool-cases (leb f.offset g.offset)) [
  | inl le ↦ rw le (h, a)
  | inr gt ↦ rw gt (a.0, All-insert_by_offset P f gs h a.1)
]

pub All-sort_by_offset {ℓ} :
    (P : Fragment → Type ℓ) (fs : List Fragment) → All P fs → All P (sort_by_offset fs)
unfolding sort_by_offset
All-sort_by_offset P [] a = tt
All-sort_by_offset P (f ∷ fs) a =
    All-insert_by_offset P f (sort_by_offset fs) a.0 (All-sort_by_offset P fs a.1)

All-offset_le :
    (m n : ℕ) (fs : List Fragment) → m ≤ n → All (λ g. n ≤ g.offset) fs → All (λ g. m ≤ g.offset) fs
All-offset_le m n [] le a = tt
All-offset_le m n (f ∷ fs) le a = (omega arith, All-offset_le m n fs le a.1)

insert_by_offset-IsSorted :
    (f : Fragment) (fs : List Fragment) → IsSorted fs → IsSorted (insert_by_offset f fs)
unfolding insert_by_offset
insert_by_offset-IsSorted f [] s = (tt, tt)
insert_by_offset-IsSorted f (g ∷ gs) s = elim (Bool-cases (leb f.offset g.offset)) [
  | inl le ↦ rw le ((leb→le _ _ le, All-offset_le f.offset g.offset gs (leb→le _ _ le) s.0), s)
  | inr gt ↦ rw gt (
    All-insert_by_offset (λ h. g.offset ≤ h.offset) f gs (ground arith) s.0,
    insert_by_offset-IsSorted f gs s.1,
  )
]

pub sort_by_offset-IsSorted : (fs : List Fragment) → IsSorted (sort_by_offset fs)
unfolding sort_by_offset
sort_by_offset-IsSorted [] = tt
sort_by_offset-IsSorted (f ∷ fs) =
    insert_by_offset-IsSorted f (sort_by_offset fs) (sort_by_offset-IsSorted fs)

Covered-insert_by_offset :
    (q : ℕ) (f : Fragment) (fs : List Fragment)
    → Covered q (f ∷ fs)
    → Covered q (insert_by_offset f fs)
unfolding insert_by_offset
Covered-insert_by_offset q f [] c = c
Covered-insert_by_offset q f (g ∷ gs) c = elim (Bool-cases (leb f.offset g.offset)) [
  | inl le ↦ rw le c
  | inr gt ↦ rw gt (elim c [
    | inl e ↦ inr (Covered-insert_by_offset q f gs (inl e))
    | inr (inl e) ↦ inl e
    | inr (inr c') ↦ inr (Covered-insert_by_offset q f gs (inr c'))
  ])
]

pub Covered-sort_by_offset :
    (q : ℕ) (fs : List Fragment) → Covered q fs → Covered q (sort_by_offset fs)
unfolding sort_by_offset
Covered-sort_by_offset q [] c = c
Covered-sort_by_offset q (f ∷ fs) (inl e) = Covered-insert_by_offset q f (sort_by_offset fs) (inl e)
Covered-sort_by_offset q (f ∷ fs) (inr c) =
    Covered-insert_by_offset q f (sort_by_offset fs) (inr (Covered-sort_by_offset q fs c))

has_last-insert :
    (f : Fragment) (fs : List Fragment)
    → has_last (insert_by_offset f fs) ≡ (not f.more_frags || has_last fs)
unfolding has_last insert_by_offset
has_last-insert f [] = refl
has_last-insert f (g ∷ gs) = ground (arith, has_last-insert f gs)

pub has_last-sort : (fs : List Fragment) → has_last (sort_by_offset fs) ≡ has_last fs
unfolding has_last sort_by_offset
has_last-sort [] = refl
has_last-sort (f ∷ fs) = ground (arith, has_last-insert f (sort_by_offset fs), has_last-sort fs)

reassemble_last :
    (fs : List Fragment) → has_last fs ≡ true → rebuild (sort_by_offset fs) 0 [] ≡ reassemble fs
unfolding reassemble
reassemble_last fs last = rw last

module _ (S : Bytes) where
  -- A fragment of the datagram: its bytes are those at its offset, and only the last one ends it.
  pub record IsFragment (f : Fragment) : Type 0 where
    pub room : f.offset + length f.payload ≤ length S
    pub bytes : f.payload ≡ take (length f.payload) (drop f.offset S)
    pub ends : f.more_frags ≡ false → f.offset + length f.payload ≡ length S

  -- The rebuilt bytes are the first `curr` bytes of the datagram.
  rebuilt_after-start :
      (f : Fragment) (curr : ℕ) (rebuilt : Bytes)
      → IsFragment f
      → f.offset ≤ curr
      → curr ≤ length S
      → rebuilt ≡ take curr S
      → (rebuilt_after f curr rebuilt ≡ take (offset_after f curr) S)
        × (offset_after f curr ≤ length S)
  rebuilt_after-start f curr rebuilt h behind le start =
      let len = length f.payload in
      let room = h.room in
      elim (Bool-cases (ltb (curr - f.offset) len)) [
        | inl past ↦ rw past (
          append-take rebuilt (drop (curr - f.offset) f.payload) S curr (len - (curr - f.offset))
                start (drop-slice f.payload S f.offset curr h.bytes behind)
              ∙ ap (λ n. take n S) (omega (arith, ltb→lt _ _ past)),
          room,
        )
        | inr old ↦ rw old (start, le)
      ]

  -- What the loop returns is the datagram.
  pub rebuild_sound :
      (fs : List Fragment) (curr : ℕ) (rebuilt : Bytes) {out : Bytes}
      → All IsFragment fs
      → curr ≤ length S
      → rebuilt ≡ take curr S
      → rebuild fs curr rebuilt ≡ some out
      → out ≡ S
  unfolding rebuild
  rebuild_sound [] curr rebuilt a le start e = cc
  rebuild_sound (f ∷ fs) curr rebuilt {out} a le start e = elim (Bool-cases (ltb curr f.offset)) [
    | inl gap ↦ ground arith
    | inr near ↦
        let ends = a.0.ends in
        let (start', le') = rebuilt_after-start f curr rebuilt a.0 (ground arith) le start in
        ground (
          arith,
          take-length (length S) S,
          rebuild_sound fs (offset_after f curr) (rebuilt_after f curr rebuilt) {out = out} a.1 le'
              start',
        )
  ]

  Covered-offset_le :
      (m q : ℕ) (fs : List Fragment) → All (λ g. m ≤ g.offset) fs → Covered q fs → m ≤ q
  Covered-offset_le m q [] a c = absurd c
  Covered-offset_le m q (f ∷ fs) a (inl e) = omega arith
  Covered-offset_le m q (f ∷ fs) a (inr c) = Covered-offset_le m q fs a.1 c

  -- The first of the remaining fragments leaves no gap.
  first_offset_le :
      (f : Fragment) (fs : List Fragment) (curr : ℕ)
      → IsFragment f
      → All (λ g. f.offset ≤ g.offset) fs
      → curr ≤ length S
      → ((q : ℕ) → curr ≤ q → q < length S → Covered q (f ∷ fs))
      → f.offset ≤ curr
  first_offset_le f fs curr h s le c =
      let room = h.room in
      elim (dec_lt curr (length S)) [
        | yes short ↦ elim (c curr (omega arith) short) [
          | inl e ↦ e.0
          | inr later ↦ Covered-offset_le f.offset curr fs s later
        ]
        | no full ↦ omega arith
      ]

  -- On sorted fragments that cover the rest of the datagram, with the last one among them, the loop
  -- returns something.
  pub rebuild-Covered :
      (fs : List Fragment) (curr : ℕ) (rebuilt : Bytes)
      → All IsFragment fs
      → IsSorted fs
      → has_last fs ≡ true
      → curr ≤ length S
      → ((q : ℕ) → curr ≤ q → q < length S → Covered q fs)
      → rebuild fs curr rebuilt ≢ none
  unfolding rebuild has_last
  rebuild-Covered [] curr rebuilt a s last le c = cc
  rebuild-Covered (f ∷ fs) curr rebuilt a s last le c =
      let near = first_offset_le f fs curr a.0 s.0 le c in
      let ends = a.0.ends in
      let room = a.0.room in
      elim (Bool-cases (not f.more_frags && f.offset + length f.payload == offset_after f curr)) [
        | inl done ↦ ground arith
        | inr more ↦
            let rest =
              rebuild-Covered fs (offset_after f curr) (rebuilt_after f curr rebuilt) a.1 s.1
                (ground arith) (ground arith)
                (λ q lo hi. elim (c q (ground arith) hi) [
                  | inl e ↦ absurd (ground arith)
                  | inr later ↦ later
                ]) in
            ground (arith, rest)
      ]

  -- The fragments of a datagram, complete or not: what comes out is the datagram.
  pub reassemble_sound :
      (fs : List Fragment) {out : Bytes} → All IsFragment fs → reassemble fs ≡ some out → out ≡ S
  unfolding reassemble
  reassemble_sound fs {out} a e =
      rebuild_sound (sort_by_offset fs) 0 [] {out = out} (All-sort_by_offset IsFragment fs a)
        (omega arith) refl (ground arith)

  -- Fragments that cover the datagram, in any order, repeated and overlapping, give the datagram.
  pub reassemble-Covered :
      (fs : List Fragment)
      → All IsFragment fs
      → has_last fs ≡ true
      → ((q : ℕ) → q < length S → Covered q fs)
      → reassemble fs ≡ some S
  reassemble-Covered fs a last c = elim (Option-cases (reassemble fs)) [
    | inl fails ↦ absurd (
        rebuild-Covered (sort_by_offset fs) 0 [] (All-sort_by_offset IsFragment fs a)
          (sort_by_offset-IsSorted fs) (has_last-sort fs ∙ last) (omega arith)
          (λ q lo hi. Covered-sort_by_offset q fs (c q hi)) (reassemble_last fs last ∙ fails))
    | inr (out, e) ↦ e ∙ ap some (reassemble_sound fs a e)
  ]
