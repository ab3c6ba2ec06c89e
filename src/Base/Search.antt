-- ===== src/Base/Search.antt =====
-- Python's searches in `bytes` and texts: prefixes, `find`, `rfind`, `in`, the positions that
-- `re.finditer` gives for a literal, and `lower`. A pattern here is never empty.
use pcap_decode.Base.{
  ap, ℕ, zero, suc, ◌+◌, ◌≤◌, ◌<◌, ◌≡◌, refl, subst, inl, inr, Bool, true, false, ◌&&◌, Option,
  none, some, List, [], ◌∷◌, ◌++◌, arith, leb, ◌==◌, if◌then◌else◌, length, drop, Option-cases, All,
  length-drop, drop-drop,
}
use pcap_decode.Base.Bytes.{Bytes}

-- `d.startswith(sig)`
unfoldable pub starts_with : Bytes → Bytes → Bool
starts_with [] d = true
starts_with (s ∷ sig) [] = false
starts_with (s ∷ sig) (x ∷ d) = s == x && starts_with sig d

-- The position one later.
abbrev pub next : Option ℕ → Option ℕ
next none = none
next (some i) = some (suc i)

-- `d.find(sig)`, with `none` for -1.
unfoldable pub find : Bytes → Bytes → Option ℕ
find sig [] = none
find sig (x ∷ d) =
    let later = next (find sig d) in if starts_with sig (x ∷ d) then some 0 else later

-- `d.find(sig, start)`
unfoldable pub find_from : Bytes → Bytes → ℕ → Option ℕ
find_from sig d start = elim (find sig (drop start d)) [ none ↦ none | some i ↦ some (start + i) ]

-- `d.rfind(sig)`
unfoldable pub rfind : Bytes → Bytes → Option ℕ
rfind sig [] = none
rfind sig (x ∷ d) = elim (rfind sig d) [
  | none ↦ if starts_with sig (x ∷ d) then some 0 else none
  | some i ↦ some (suc i)
]

-- `sig in d`
unfoldable pub is_infix : Bytes → Bytes → Bool
is_infix sig d = elim (find sig d) [ none ↦ false | some i ↦ true ]

-- The starts that `re.finditer` gives for a literal, from `start` on; the matches do not overlap.
unfoldable pub find_all_from : ℕ → Bytes → Bytes → ℕ → List ℕ
find_all_from zero sig d start = []
find_all_from (suc fuel) sig d start = elim (find_from sig d start) [
  | none ↦ []
  | some i ↦ i ∷ find_all_from fuel sig d (i + length sig)
]

-- Every match takes a byte at least.
unfoldable pub find_all : Bytes → Bytes → List ℕ
find_all sig d = find_all_from (length d) sig d 0

-- `lower()` of an ASCII letter.
abbrev pub lower_byte : ℕ → ℕ
lower_byte c = if leb b'A' c && leb c b'Z' then c + 32 else c

unfoldable pub lower : Bytes → Bytes
lower [] = []
lower (c ∷ d) = lower_byte c ∷ lower d

pub starts_with-length : (sig d : Bytes) → starts_with sig d ≡ true → length sig ≤ length d
unfolding starts_with
starts_with-length [] d h = omega arith
starts_with-length (s ∷ sig) [] h = cc
starts_with-length (s ∷ sig) (x ∷ d) h = ground (arith, starts_with-length sig d)

-- A position that `find` gives is one where the pattern stands.
pub find_sound : (sig d : Bytes) (i : ℕ) → find sig d ≡ some i → starts_with sig (drop i d) ≡ true
unfolding find
find_sound sig [] i h = cc
find_sound sig (x ∷ d) zero h = ground arith
find_sound sig (x ∷ d) (suc i) h = ground (arith, find_sound sig d i)

-- It is the first one.
pub find-first :
    (sig d : Bytes) (i j : ℕ) → find sig d ≡ some i → j < i → starts_with sig (drop j d) ≡ false
unfolding find
find-first sig [] i j h l = cc
find-first sig (x ∷ d) zero j h l = absurd (omega arith)
find-first sig (x ∷ d) (suc i) zero h l = ground arith
find-first sig (x ∷ d) (suc i) (suc j) h l = ground (arith, find-first sig d i j)

starts_with-nil : (sig : Bytes) (j : ℕ) → 0 < length sig → starts_with sig (drop j []) ≡ false
unfolding starts_with
starts_with-nil [] j l = absurd (omega arith)
starts_with-nil (s ∷ sig) zero l = refl
starts_with-nil (s ∷ sig) (suc j) l = refl

pub find-none :
    (sig d : Bytes) (j : ℕ)
    → find sig d ≡ none
    → 0 < length sig
    → starts_with sig (drop j d) ≡ false
unfolding find
find-none sig [] j h l = starts_with-nil sig j l
find-none sig (x ∷ d) zero h l = ground arith
find-none sig (x ∷ d) (suc j) h l = ground (arith, find-none sig d j)

pub find_from_sound :
    (sig d : Bytes) (start i : ℕ)
    → find_from sig d start ≡ some i
    → (start ≤ i) × (starts_with sig (drop i d) ≡ true)
unfolding find_from
find_from_sound sig d start i h = elim (Option-cases (find sig (drop start d))) [
  | inl e ↦ ground arith
  | inr (k, e) ↦
      let found = find_sound sig (drop start d) k e in
      let there : start + k ≡ i = ground arith in
      (
        omega arith,
        subst (λ p. starts_with sig (drop p d) ≡ true) there
            (subst (λ l. starts_with sig l ≡ true) (drop-drop k start d) found),
      )
]

pub rfind_sound : (sig d : Bytes) (i : ℕ) → rfind sig d ≡ some i → starts_with sig (drop i d) ≡ true
unfolding rfind
rfind_sound sig [] i h = cc
rfind_sound sig (x ∷ d) zero h = ground arith
rfind_sound sig (x ∷ d) (suc i) h = ground (arith, rfind_sound sig d i)

find_all_from_sound :
    (fuel : ℕ) (sig d : Bytes) (start : ℕ)
    → All (λ i. starts_with sig (drop i d) ≡ true) (find_all_from fuel sig d start)
unfolding find_all_from
find_all_from_sound zero sig d start = tt
find_all_from_sound (suc fuel) sig d start = elim (Option-cases (find_from sig d start)) [
  | inl e ↦ rw (e, find_all_from) tt
  | inr (i, e) ↦
      rw (e, find_all_from)
        ((find_from_sound sig d start i e).1, find_all_from_sound fuel sig d (i + length sig))
]

-- Every match of `finditer` is an occurrence.
pub find_all_sound : (sig d : Bytes) → All (λ i. starts_with sig (drop i d) ≡ true) (find_all sig d)
unfolding find_all
find_all_sound sig d = find_all_from_sound (length d) sig d 0

-- More data behind does not change a test of data that is long enough.
starts_with-append :
    (sig d e : Bytes) → length sig ≤ length d → starts_with sig (d ++ e) ≡ starts_with sig d
unfolding starts_with
starts_with-append [] d e h = refl
starts_with-append (s ∷ sig) [] e h = absurd (omega arith)
starts_with-append (s ∷ sig) (x ∷ d) e h =
    ap (λ b. s == x && b) (starts_with-append sig d e (omega arith))

-- A match stays the first one when there is more data behind.
pub find-append : (sig d e : Bytes) (i : ℕ) → find sig d ≡ some i → find sig (d ++ e) ≡ some i
unfolding find
find-append sig [] e i h = cc
find-append sig (x ∷ d) e zero h =
    let here : starts_with sig (x ∷ d) ≡ true = ground arith in
    ground (arith, starts_with-append sig (x ∷ d) e (starts_with-length sig (x ∷ d) here))
find-append sig (x ∷ d) e (suc i) h =
    let later : find sig d ≡ some i = ground arith in
    let long = starts_with-length sig (drop i d) (find_sound sig d i later) in
    ground (
      arith,
      find-append sig d e i later,
      starts_with-append sig (x ∷ d) e (omega (arith, long, length-drop i d)),
    )
