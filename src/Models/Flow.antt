-- ===== src/Models/Flow.antt =====
-- Flow keys: `normalized` names a conversation, whichever side sent the packet.
use pcap_decode.Base.{ℕ, ◌≡◌, refl, ◌↔◌, sym, ap, ◌∙◌, ◌⊎◌, inl, inr, true, false, [], ◌∷◌, arith}
use pcap_decode.Base.Equality.{nat_eq, list_eq}
use pcap_decode.Models.{Text, FlowKey, reverse, normalized, text_leb, endpoint_leb, text_iff}

text_leb_total : (s t : Text) → text_leb s t ≡ false → text_leb t s ≡ true
unfolding text_leb
text_leb_total [] t h = cc
text_leb_total (c ∷ s) [] h = refl
text_leb_total (c ∷ s) (d ∷ t) h = ground (arith, text_leb_total s t)

text_leb_antisymm : (s t : Text) → text_leb s t ≡ true → text_leb t s ≡ true → s ≡ t
unfolding text_leb
text_leb_antisymm [] [] h k = refl
text_leb_antisymm [] (d ∷ t) h k = cc
text_leb_antisymm (c ∷ s) [] h k = cc
text_leb_antisymm (c ∷ s) (d ∷ t) h k = ground (arith, text_leb_antisymm s t)

endpoint_total :
    (a : Text) (p : ℕ) (b : Text) (q : ℕ)
    → endpoint_leb a p b q ≡ false
    → endpoint_leb b q a p ≡ true
unfolding endpoint_leb
endpoint_total a p b q h = ground (arith, text_iff a b, text_iff b a, text_leb_total a b)

endpoint_antisymm :
    (a : Text) (p : ℕ) (b : Text) (q : ℕ)
    → endpoint_leb a p b q ≡ true
    → endpoint_leb b q a p ≡ true
    → (a ≡ b) × (p ≡ q)
unfolding endpoint_leb
endpoint_antisymm a p b q h k = ground (arith, text_iff a b, text_iff b a, text_leb_antisymm a b)

-- The two keys name the same conversation.
abbrev pub SameFlow : FlowKey → FlowKey → Type 0
SameFlow j k = (j ≡ k) ⊎ (j ≡ reverse k)

pub reverse-reverse : (k : FlowKey) → reverse (reverse k) ≡ k
unfolding reverse
reverse-reverse k = refl

pub normalized-reverse : (k : FlowKey) → normalized (reverse k) ≡ normalized k
unfolding normalized reverse
normalized-reverse k = ground (
  arith,
  endpoint_total k.src_ip k.src_port k.dst_ip k.dst_port,
  endpoint_antisymm k.src_ip k.src_port k.dst_ip k.dst_port,
)

normalized_cases : (k : FlowKey) → (normalized k ≡ k) ⊎ (normalized k ≡ reverse k)
unfolding normalized
normalized_cases k = ground arith

pub normalized-normalized : (k : FlowKey) → normalized (normalized k) ≡ normalized k
normalized-normalized k = elim (normalized_cases k) [
  | inl e ↦ ap normalized e
  | inr e ↦ ap normalized e ∙ normalized-reverse k
]

normalized_inj : (j k : FlowKey) → normalized j ≡ normalized k → SameFlow j k
normalized_inj j k h = elim (normalized_cases j) [
  | inl a ↦ elim (normalized_cases k) [ inl b ↦ inl (sym a ∙ h ∙ b) | inr b ↦ inr (sym a ∙ h ∙ b) ]
  | inr a ↦ elim (normalized_cases k) [
    | inl b ↦ inr (sym (reverse-reverse j) ∙ ap reverse (sym a ∙ h ∙ b))
    | inr b ↦ inl (sym (reverse-reverse j) ∙ ap reverse (sym a ∙ h ∙ b) ∙ reverse-reverse k)
  ]
]

-- Two flow keys normalise to the same key exactly when they are equal or one is the reverse of the
-- other: a table keyed by `normalized` keeps the two directions of a conversation together and
-- different conversations apart.
pub normalized_iff : (j k : FlowKey) → (normalized j ≡ normalized k) ↔ SameFlow j k
normalized_iff j k = (
  normalized_inj j k,
  λ h. elim h [ inl e ↦ ap normalized e | inr e ↦ ap normalized e ∙ normalized-reverse k ],
)
