-- ===== src/Engine/Order.antt =====
-- engine.py: the order of the results, and the scores of a hash in them.
use pcap_decode.Base.{
  ℕ, ◌≡◌, refl, sym, ◌∙◌, ap, inl, inr, Bool, true, false, List, [], ◌∷◌, arith, if◌then◌else◌, All,
  All-map, Bool-cases,
}
use pcap_decode.Base.Equality.{◌==◌, list_eq, nat_eq}
use pcap_decode.Models.{Text}
use pcap_decode.Engine.{ExtractedFile, is_before, insert_file, sort_files}

-- A file, and then those that do not come before it.
abbrev pub IsRanked : List ExtractedFile → Type 0
IsRanked [] = Unit
IsRanked (f ∷ fs) = All (λ g. is_before f g ≡ true) fs × IsRanked fs

is_before_trans :
    (f g k : ExtractedFile) → is_before f g ≡ true → is_before g k ≡ true → is_before f k ≡ true
is_before_trans f g k h l = ground arith

is_before_total : (f g : ExtractedFile) → is_before f g ≡ false → is_before g f ≡ true
is_before_total f g h = ground arith

All-insert_file :
    (p f : ExtractedFile) (fs : List ExtractedFile)
    → is_before p f ≡ true
    → All (λ g. is_before p g ≡ true) fs
    → All (λ g. is_before p g ≡ true) (insert_file f fs)
unfolding insert_file
All-insert_file p f [] b h = (b, tt)
All-insert_file p f (g ∷ gs) b (k, h) = elim (Bool-cases (is_before f g)) [
  | inl e ↦ rw (e, insert_file) (b, (k, h))
  | inr e ↦ rw (e, insert_file) (k, All-insert_file p f gs b h)
]

insert_file-IsRanked :
    (f : ExtractedFile) (fs : List ExtractedFile) → IsRanked fs → IsRanked (insert_file f fs)
unfolding insert_file
insert_file-IsRanked f [] h = (tt, tt)
insert_file-IsRanked f (g ∷ gs) (h, r) = elim (Bool-cases (is_before f g)) [
  | inl e ↦ rw (e, insert_file) ((e, All-map _ _ gs (λ k b. is_before_trans f g k e b) h), (h, r))
  | inr e ↦
      rw (e, insert_file)
        (All-insert_file g f gs (is_before_total f g e) h, insert_file-IsRanked f gs r)
]

pub sort_files-IsRanked : (fs : List ExtractedFile) → IsRanked (sort_files fs)
unfolding sort_files
sort_files-IsRanked [] = tt
sort_files-IsRanked (f ∷ fs) = insert_file-IsRanked f (sort_files fs) (sort_files-IsRanked fs)

-- The scores of the files with a hash, in order.
unfoldable pub scores : Text → List ExtractedFile → List ℕ
scores h [] = []
scores h (f ∷ fs) = let rest = scores h fs in if h == f.sha256 then f.threat_score ∷ rest else rest

-- No two files have the same hash.
abbrev pub IsDistinct : List ExtractedFile → Type 0
IsDistinct [] = Unit
IsDistinct (f ∷ fs) = (scores f.sha256 fs ≡ []) × IsDistinct fs

insert_file-other :
    (h : Text) (f : ExtractedFile) (fs : List ExtractedFile)
    → (h == f.sha256) ≡ false
    → scores h (insert_file f fs) ≡ scores h fs
unfolding scores insert_file
insert_file-other h f [] e = rw e refl
insert_file-other h f (g ∷ gs) e = elim (Bool-cases (is_before f g)) [
  | inl b ↦ rw (b, insert_file) (rw e refl)
  | inr b ↦ rw (b, insert_file) (rw (insert_file-other h f gs e) refl)
]

cons_nil : (n : ℕ) (l : List ℕ) → n ∷ l ≡ [] → ⊥
cons_nil n l h = cc

none_kept : (b : Bool) (n : ℕ) (l : List ℕ) → (if b then n ∷ l else l) ≡ [] → (b ≡ false) × (l ≡ [])
none_kept true n l h = absurd (cons_nil n l h)
none_kept false n l h = (refl, h)

insert_file-new :
    (h : Text) (f : ExtractedFile) (fs : List ExtractedFile)
    → scores h fs ≡ []
    → (h == f.sha256) ≡ true
    → scores h (insert_file f fs) ≡ f.threat_score ∷ []
unfolding scores insert_file
insert_file-new h f [] n e = rw e refl
insert_file-new h f (g ∷ gs) n e =
    let (other, rest) = none_kept (h == g.sha256) g.threat_score (scores h gs) n in
    elim (Bool-cases (is_before f g)) [
      | inl b ↦ rw (b, insert_file) (rw e (ap (λ l. f.threat_score ∷ l) n))
      | inr b ↦ rw (b, insert_file) (rw other (insert_file-new h f gs rest e))
    ]

-- Sorting files with different hashes changes nothing for a hash.
pub scores-sort_files :
    (h : Text) (fs : List ExtractedFile) → IsDistinct fs → scores h (sort_files fs) ≡ scores h fs
unfolding scores sort_files
scores-sort_files h [] d = refl
scores-sort_files h (f ∷ fs) (fresh, d) = elim (Bool-cases (h == f.sha256)) [
  | inr e ↦ rw e (insert_file-other h f (sort_files fs) e ∙ scores-sort_files h fs d)
  | inl e ↦
      let same : h ≡ f.sha256 = (list_eq.beq_iff h f.sha256).0 e in
      let nothing : scores h fs ≡ [] = ap (λ k. scores k fs) same ∙ fresh in
      insert_file-new h f (sort_files fs) (scores-sort_files h fs d ∙ nothing) e
      ∙ rw e (ap (λ l. f.threat_score ∷ l) (sym nothing))
]
