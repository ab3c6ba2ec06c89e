-- ===== src/Base/Xor.antt =====
-- Exclusive or on bytes: a key applied twice gives the byte back.
use Prim.Native.Nat.{bit_xor}
use pcap_decode.Base.{ℕ, zero, suc, ◌<◌, ◌≡◌, refl, Bool, true, ◌&&◌, arith, ◌==◌, ==_iff}

-- A test of every number below `n`.
unfoldable every_below : ℕ → (ℕ → Bool) → Bool
every_below zero p = true
every_below (suc n) p = p n && every_below n p

every_below_sound : (n : ℕ) (p : ℕ → Bool) (x : ℕ) → every_below n p ≡ true → x < n → p x ≡ true
unfolding every_below
every_below_sound zero p x h lt = absurd (omega arith)
every_below_sound (suc n) p x h lt = ground (arith, every_below_sound n p x)

twice_table : every_below 256 (λ k. every_below 256 (λ x. bit_xor (bit_xor x k) k == x)) ≡ true
unfolding every_below
twice_table = refl

pub xor_twice : (x k : ℕ) → x < 256 → k < 256 → bit_xor (bit_xor x k) k ≡ x
xor_twice x k h l = (==_iff (bit_xor (bit_xor x k) k) x).0 (
    every_below_sound 256 (λ x. bit_xor (bit_xor x k) k == x) x
      (every_below_sound 256 (λ k. every_below 256 (λ x. bit_xor (bit_xor x k) k == x)) k
        twice_table l)
      h)
