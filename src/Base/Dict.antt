-- ===== src/Base/Dict.antt =====
-- A Python dict as an association list in insertion order, over any type of keys with `==`.
use pcap_decode.Base.{
  ℕ, ◌+◌, ◌≡◌, refl, ◌≢◌, Option, none, some, List, [], ◌∷◌, arith, if◌then◌else◌, length,
}
use pcap_decode.Base.Equality.{Eq, ◌==◌}

abbrev pub Dict {ℓ κ} : Type ℓ → Type κ → Type (ℓ ⊔ κ)
Dict K V = List (K × V)

module _ {ℓ κ} {K : Type ℓ} {V : Type κ} ⦃e : Eq K⦄ where
  -- `d.get(k)`
  unfoldable pub lookup : K → Dict K V → Option V
  lookup k [] = none
  lookup k ((j, v) ∷ d) = if k == j then some v else lookup k d

  -- `d[k] = v`
  unfoldable pub insert : K → V → Dict K V → Dict K V
  insert k v [] = (k, v) ∷ []
  insert k v ((j, w) ∷ d) = if k == j then (j, v) ∷ d else (j, w) ∷ insert k v d

  -- `del d[k]`, and `d.pop(k, None)`
  unfoldable pub erase : K → Dict K V → Dict K V
  erase k [] = []
  erase k ((j, w) ∷ d) = if k == j then d else (j, w) ∷ erase k d

  abbrev pub NodupKeys : Dict K V → Type κ
  NodupKeys [] = Unit
  NodupKeys ((k, _) ∷ d) = (lookup k d ≡ none) × NodupKeys d

  pub lookup-insert :
      (j k : K) (v : V) (d : Dict K V)
      → lookup j (insert k v d) ≡ (if j == k then some v else lookup j d)
  unfolding lookup insert
  lookup-insert j k v [] = refl
  lookup-insert j k v ((i, w) ∷ d) =
      ground (arith, e.beq_iff j k, e.beq_iff k i, e.beq_iff j i, lookup-insert j k v d)

  pub lookup-erase_ne : (j k : K) (d : Dict K V) → j ≢ k → lookup j (erase k d) ≡ lookup j d
  unfolding lookup erase
  lookup-erase_ne j k [] h = refl
  lookup-erase_ne j k ((i, w) ∷ d) h =
      ground (arith, e.beq_iff k i, e.beq_iff j i, lookup-erase_ne j k d h)

  pub lookup-erase_self : (k : K) (d : Dict K V) → NodupKeys d → lookup k (erase k d) ≡ none
  unfolding lookup erase
  lookup-erase_self k [] u = refl
  lookup-erase_self k ((i, w) ∷ d) u = ground (arith, e.beq_iff k i, lookup-erase_self k d u.1)

  pub lookup-erase-none : (j k : K) (d : Dict K V) → lookup j d ≡ none → lookup j (erase k d) ≡ none
  unfolding lookup erase
  lookup-erase-none j k [] h = refl
  lookup-erase-none j k ((i, w) ∷ d) h = ground (arith, lookup-erase-none j k d)

  pub insert-NodupKeys : (k : K) (v : V) (d : Dict K V) → NodupKeys d → NodupKeys (insert k v d)
  unfolding lookup insert
  insert-NodupKeys k v [] u = (refl, tt)
  insert-NodupKeys k v ((j, w) ∷ d) (fresh, u) =
      ground (arith, e.beq_iff k j, e.beq_iff j k, insert-NodupKeys k v d u, lookup-insert j k v d)

  pub erase-NodupKeys : (k : K) (d : Dict K V) → NodupKeys d → NodupKeys (erase k d)
  unfolding lookup erase
  erase-NodupKeys k [] u = tt
  erase-NodupKeys k ((j, w) ∷ d) (fresh, u) =
      ground (arith, erase-NodupKeys k d u, lookup-erase-none j k d fresh)

  -- A write to a key that is there keeps the size, and a new key adds one.
  pub length-insert :
      (k : K) (v : V) (d : Dict K V)
      → length (insert k v d) ≡ elim (lookup k d) [ none ↦ length d + 1 | some _ ↦ length d ]
  unfolding lookup insert
  length-insert k v [] = omega arith
  length-insert k v ((j, w) ∷ d) = ground (arith, length-insert k v d)

-- `counter[k]` of a `Counter`: 0 for a missing key.
abbrev pub count_of : Option ℕ → ℕ
count_of none = 0
count_of (some n) = n

module _ {ℓ} {K : Type ℓ} ⦃e : Eq K⦄ where
  -- `counter[k] += 1`
  unfoldable pub increment : K → Dict K ℕ → Dict K ℕ
  increment k c = insert k (count_of (lookup k c) + 1) c

  -- `sum(counter.values())`
  unfoldable pub sum_values : Dict K ℕ → ℕ
  sum_values [] = 0
  sum_values ((k, n) ∷ c) = n + sum_values c

  sum_values-insert :
      (k : K) (n : ℕ) (c : Dict K ℕ)
      → sum_values (insert k n c) + count_of (lookup k c) ≡ sum_values c + n
  unfolding sum_values insert lookup
  sum_values-insert k n [] = omega arith
  sum_values-insert k n ((j, m) ∷ c) = ground (arith, sum_values-insert k n c)

  pub sum_values-increment : (k : K) (c : Dict K ℕ) → sum_values (increment k c) ≡ sum_values c + 1
  unfolding increment
  sum_values-increment k c = omega (arith, sum_values-insert k (count_of (lookup k c) + 1) c)
