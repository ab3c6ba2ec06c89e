-- ===== src/Engine/Unique.antt =====
-- engine.py, `_analyze_and_deduplicate`: what it promises, and that it keeps it.
use pcap_decode.Base.{
  ℕ, ◌≡◌, ◌⊎◌, refl, sym, ◌∙◌, ap, inl, inr, max, Bool, true, false, ◌&&◌, ◌||◌, not, Option, none,
  some, List, [], ◌∷◌, arith, ltb, if◌then◌else◌, All, Bool-cases,
}
use pcap_decode.Base.Equality.{◌==◌, list_eq, nat_eq}
use pcap_decode.Base.Dict.{lookup, insert, lookup-insert, NodupKeys, insert-NodupKeys}
use pcap_decode.Base.Bytes.{Bytes, bytes_beq, Result, ok, raise, ◌>>=◌, Post, bind-Post, is_ok}
use pcap_decode.Models.{Text, text}
use pcap_decode.Engine.{
  ExtractedFile, Seen, raise_score, rename_file, merge, with_seen, values, is_candidate,
  absorb_candidate, absorb_candidates, add_file, add_indicators, ends_with,
}
use pcap_decode.Engine.Order.{scores, IsDistinct}

-- The higher of two scores, where there are some.
abbrev pub higher : Option ℕ → Option ℕ → Option ℕ
higher none q = q
higher (some m) none = some m
higher (some m) (some n) = some (max m n)

higher_assoc : (p q r : Option ℕ) → higher (higher p q) r ≡ higher p (higher q r)
higher_assoc none q r = refl
higher_assoc (some m) none r = refl
higher_assoc (some m) (some n) none = refl
higher_assoc (some m) (some n) (some k) = ap some (omega arith)

-- The score and the hash of a file are what `merge` reads of it.
pub record Keeps (f g : ExtractedFile) (score : ℕ) : Type 0 where
  pub score_is : g.threat_score ≡ score
  pub hash_is : g.sha256 ≡ f.sha256

raise_score-Keeps :
    (f g : ExtractedFile) → Keeps f (raise_score f g) (max f.threat_score g.threat_score)
unfolding raise_score
raise_score-Keeps f g = elim (Bool-cases (ltb f.threat_score g.threat_score)) [
  | inl e ↦ rw (e, raise_score) record { score_is = ground arith; hash_is = refl }
  | inr e ↦ rw (e, raise_score) record { score_is = ground arith; hash_is = refl }
]

rename_file-Keeps : (f g : ExtractedFile) → Keeps f (rename_file f g) f.threat_score
unfolding rename_file
rename_file-Keeps f g =
    elim (Bool-cases
      (not (ends_with f.filename g.extension) && not (bytes_beq g.extension (text "bin")))) [
        | inl e ↦ rw (e, rename_file) record { score_is = refl; hash_is = refl }
        | inr e ↦ rw (e, rename_file) record { score_is = refl; hash_is = refl }
      ]

pub merge-Keeps : (f g : ExtractedFile) → Keeps f (merge f g) (max f.threat_score g.threat_score)
unfolding merge
merge-Keeps f g =
    let raised = raise_score-Keeps f g in
    let renamed =
      rename_file-Keeps
        (record (raise_score f g) {
          threat_indicators = add_indicators f.threat_indicators g.threat_indicators;
        })
        g in
    record {
      score_is = renamed.score_is ∙ raised.score_is;
      hash_is = renamed.hash_is ∙ raised.hash_is;
    }

abbrev pub score_of : Option ExtractedFile → Option ℕ
score_of none = none
score_of (some f) = some f.threat_score

abbrev pub to_list : Option ℕ → List ℕ
to_list none = []
to_list (some n) = n ∷ []

with_seen-score :
    (found : Option ExtractedFile) (g : ExtractedFile)
    → some (with_seen found g).threat_score ≡ higher (score_of found) (some g.threat_score)
with_seen-score none g = refl
with_seen-score (some f) g = ap some (merge-Keeps f g).score_is

-- Every file stands under its hash.
abbrev pub IsKeyed : Seen → Type 0
IsKeyed = All (λ e. e.1.sha256 ≡ e.0)

pub insert-IsKeyed :
    (h : Text) (f : ExtractedFile) (seen : Seen)
    → f.sha256 ≡ h
    → IsKeyed seen
    → IsKeyed (insert h f seen)
unfolding insert
insert-IsKeyed h f [] e k = (e, tt)
insert-IsKeyed h f ((j, g) ∷ seen) e (k, ks) = elim (Bool-cases (h == j)) [
  | inl same ↦ rw (same, insert) (e ∙ (list_eq.beq_iff h j).0 same, ks)
  | inr other ↦ rw (other, insert) (k, insert-IsKeyed h f seen e ks)
]

some_inj : (g f : ExtractedFile) → some g ≡ some f → g ≡ f
some_inj g f e = cc

picked :
    (b : Bool) (g f : ExtractedFile) (rest : Option ExtractedFile)
    → (if b then some g else rest) ≡ some f
    → ((b ≡ true) × (g ≡ f)) ⊎ (rest ≡ some f)
picked true g f rest e = inl (refl, some_inj g f e)
picked false g f rest e = inr e

pub lookup-IsKeyed :
    (h : Text) (f : ExtractedFile) (seen : Seen)
    → IsKeyed seen
    → lookup h seen ≡ some f
    → f.sha256 ≡ h
unfolding lookup
lookup-IsKeyed h f [] k e = cc
lookup-IsKeyed h f ((j, g) ∷ seen) (k, ks) e = elim (picked (h == j) g f (lookup h seen) e) [
  | inl (same, here) ↦ sym (ap (λ x. x.sha256) here) ∙ k ∙ sym ((list_eq.beq_iff h j).0 same)
  | inr rest ↦ lookup-IsKeyed h f seen ks rest
]

pub scores-values :
    (h : Text) (seen : Seen)
    → IsKeyed seen
    → NodupKeys seen
    → scores h (values seen) ≡ to_list (score_of (lookup h seen))
unfolding scores values lookup
scores-values h [] k u = refl
scores-values h ((j, g) ∷ seen) (k, ks) (fresh, u) = elim (Bool-cases (h == j)) [
  | inl same ↦
      let stands : (h == g.sha256) ≡ true = ap (λ q. h == q) k ∙ same in
      let nothing : scores h (values seen) ≡ [] =
        scores-values h seen ks u
        ∙ ap (λ q. to_list (score_of (lookup q seen))) ((list_eq.beq_iff h j).0 same)
        ∙ ap (λ f. to_list (score_of f)) fresh in
      rw stands (rw same (ap (λ l. g.threat_score ∷ l) nothing))
  | inr other ↦
      let differs : (h == g.sha256) ≡ false = ap (λ q. h == q) k ∙ other in
      rw differs (rw other (scores-values h seen ks u))
]

pub values-IsDistinct : (seen : Seen) → IsKeyed seen → NodupKeys seen → IsDistinct (values seen)
unfolding values
values-IsDistinct [] k u = tt
values-IsDistinct ((j, g) ∷ seen) (k, ks) (fresh, u) = (
  ap (λ h. scores h (values seen)) k
      ∙ scores-values j seen ks u
      ∙ ap (λ f. to_list (score_of f)) fresh,
  values-IsDistinct seen ks u,
)

higher-none : (p : Option ℕ) → higher p none ≡ p
higher-none none = refl
higher-none (some n) = refl

abbrev pub score_in : Text → Seen → Option ℕ
score_in h seen = score_of (lookup h seen)

-- The table of the hashes that were seen.
pub record IsTable (seen : Seen) : Type 0 where
  pub keyed : IsKeyed seen
  pub single : NodupKeys seen

with_seen-hash :
    (found : Option ExtractedFile) (a : ExtractedFile) (seen : Seen)
    → IsKeyed seen
    → lookup a.sha256 seen ≡ found
    → (with_seen found a).sha256 ≡ a.sha256
with_seen-hash none a seen k e = refl
with_seen-hash (some f) a seen k e = (merge-Keeps f a).hash_is ∙ lookup-IsKeyed a.sha256 f seen k e

-- What an analysis that returned gives to a hash.
abbrev pub score_for : Text → Result ExtractedFile → Option ℕ
score_for h (ok a) = if h == a.sha256 then some a.threat_score else none
score_for h (raise e) = none

map-Post {ℓ κ μ} :
    {A : Type ℓ} (P : A → Type κ) (Q : A → Type μ) (m : Result A)
    → Post P m
    → ((a : A) → P a → Post Q (ok a))
    → Post Q m
map-Post P Q (ok a) h k = k a h
map-Post P Q (raise e) h k = tt

is_ok-bind :
    {A B : Type 0} (m : Result A) (f : A → Result B) (b : Bool)
    → ((a : A) → is_ok (f a) ≡ b)
    → is_ok (m >>= f) ≡ is_ok m && b
is_ok-bind (ok a) f b h = h a
is_ok-bind (raise e) f b h = refl

module _ {C : Type 0} (payload : C → Bytes) (analyze : C → Result ExtractedFile)
    (min_payload_size : ℕ) where
  -- The score that a candidate gives to a hash.
  abbrev pub own_score : Text → C → Option ℕ
  own_score h c =
      if is_candidate payload analyze min_payload_size c then score_for h (analyze c) else none

  -- The highest score of the candidates with a hash, if there are some.
  unfoldable pub best_score : Text → List C → Option ℕ
  best_score h [] = none
  best_score h (c ∷ cs) = higher (own_score h c) (best_score h cs)

  -- The analysis of every candidate that is large enough returns.
  unfoldable pub all_analyzed : List C → Bool
  all_analyzed [] = true
  all_analyzed (c ∷ cs) =
      (not (is_candidate payload analyze min_payload_size c) || is_ok (analyze c))
      && all_analyzed cs

  -- A table that has the scores of another one and of some candidates.
  abbrev pub Absorbed : Seen → (Text → Option ℕ) → Seen → Type 0
  Absorbed seen added seen' =
      IsTable seen' × ((h : Text) → score_in h seen' ≡ higher (score_in h seen) (added h))

  add_file-Absorbed :
      (a : ExtractedFile) (seen : Seen)
      → IsTable seen
      → Absorbed seen (λ h. score_for h (ok a)) (add_file seen a)
  add_file-Absorbed a seen t = (
    record {
      keyed =
          insert-IsKeyed a.sha256 _ seen (with_seen-hash (lookup a.sha256 seen) a seen t.keyed refl)
            t.keyed;
      single = insert-NodupKeys a.sha256 _ seen t.single;
    },
    λ h. elim (Bool-cases (h == a.sha256)) [
      | inr other ↦
          rw (lookup-insert h a.sha256 (with_seen (lookup a.sha256 seen) a) seen)
            (rw other (sym (higher-none (score_in h seen))))
      | inl same ↦
          let e : h ≡ a.sha256 = (list_eq.beq_iff h a.sha256).0 same in
          rw (lookup-insert h a.sha256 (with_seen (lookup a.sha256 seen) a) seen) (
            rw same (
              with_seen-score (lookup a.sha256 seen) a
              ∙ ap (λ q. higher (score_in q seen) (some a.threat_score)) (sym e)))
    ],
  )

  absorb_candidate-Absorbed :
      (c : C) (seen : Seen)
      → IsTable seen
      → Post
          (Absorbed seen (λ h. own_score h c))
          (absorb_candidate payload analyze min_payload_size c seen)
  unfolding absorb_candidate
  absorb_candidate-Absorbed c seen t =
      elim (Bool-cases (is_candidate payload analyze min_payload_size c)) [
        | inr small ↦ rw (small, absorb_candidate) (t, λ h. sym (higher-none (score_in h seen)))
        | inl large ↦ rw (large, absorb_candidate) (analyzed (analyze c))
      ]
    where
      analyzed :
          (m : Result ExtractedFile)
          → Post (Absorbed seen (λ h. score_for h m)) (m >>= λ a. ok (add_file seen a))
      analyzed (ok a) = add_file-Absorbed a seen t
      analyzed (raise e) = tt

  pub absorb_candidates-Absorbed :
      (cs : List C) (seen : Seen)
      → IsTable seen
      → Post
          (Absorbed seen (λ h. best_score h cs))
          (absorb_candidates payload analyze min_payload_size cs seen)
  unfolding absorb_candidates best_score
  absorb_candidates-Absorbed [] seen t = (t, λ h. sym (higher-none (score_in h seen)))
  absorb_candidates-Absorbed (c ∷ cs) seen t =
      bind-Post (Absorbed seen (λ h. own_score h c)) _
        (absorb_candidate payload analyze min_payload_size c seen) _
        (absorb_candidate-Absorbed c seen t)
        (λ next (t', gave).
          map-Post _ _ (absorb_candidates payload analyze min_payload_size cs next)
            (absorb_candidates-Absorbed cs next t')
            (λ last (t'', rest). (
              t'',
              λ h.
                  rest h
                  ∙ ap (λ p. higher p (best_score h cs)) (gave h)
                  ∙ higher_assoc (score_in h seen) (own_score h c) (best_score h cs),
            )))

  absorb_candidate-ok :
      (c : C) (seen : Seen)
      → is_ok (absorb_candidate payload analyze min_payload_size c seen)
        ≡ (not (is_candidate payload analyze min_payload_size c) || is_ok (analyze c))
  unfolding absorb_candidate
  absorb_candidate-ok c seen = ground arith

  pub absorb_candidates-ok :
      (cs : List C) (seen : Seen)
      → is_ok (absorb_candidates payload analyze min_payload_size cs seen) ≡ all_analyzed cs
  unfolding absorb_candidates all_analyzed
  absorb_candidates-ok [] seen = refl
  absorb_candidates-ok (c ∷ cs) seen =
      is_ok-bind (absorb_candidate payload analyze min_payload_size c seen) _ (all_analyzed cs)
        (absorb_candidates-ok cs)
      ∙ ap (λ b. b && all_analyzed cs) (absorb_candidate-ok c seen)
