-- ===== src/Base/Bytes.antt =====
-- Python's `bytes` and `struct` as the decoders use them: slices, indexing that may raise, fixed
-- width reads, and the bits of a number. Numbers in a `bytes` are below 256 (`IsBytes`).
use pcap_decode.Base.{
  ap, ℕ, ◌+◌, ◌-◌, ◌*◌, ◌/◌, ◌%◌, ◌^◌, ◌≤◌, ◌<◌, ◌≡◌, refl, Bool, true, false, ◌&&◌, none, some,
  List, [], ◌∷◌, arith, ◌==◌, if◌then◌else◌, length, get_elem?, get_or, take, drop, length-take,
  length-drop, zero, suc,
}

abbrev pub Bytes : Type 0
Bytes = List ℕ

abbrev pub IsBytes : Bytes → Type 0
IsBytes [] = Unit
IsBytes (b ∷ d) = (b < 256) × IsBytes d

-- The exceptions that the modelled code can meet.
pub data Error : Type 0 where
  struct_error index_error value_error key_error : Error
  -- No exception of the source: the fuel of a modelled loop ran out.
  no_fuel : Error

pub data Result {ℓ} (A : Type ℓ) : Type ℓ where
  ok : A → Result A
  raise : Error → Result A

infixl 5 ◌>>=◌
abbrev pub ◌>>=◌ {ℓ κ} : {A : Type ℓ} {B : Type κ} → Result A → (A → Result B) → Result B
ok a >>= f = f a
raise e >>= f = raise e

-- `d[a:b]`
abbrev pub slice : Bytes → ℕ → ℕ → Bytes
slice d a b = take (b - a) (drop a d)

-- `d[i]`
unfoldable pub at : Bytes → ℕ → Result ℕ
at d i = elim (get_elem? d i) [ none ↦ raise index_error | some b ↦ ok b ]

-- `struct.unpack` of a format of `n` bytes: the buffer must have exactly that length.
unfoldable pub unpack : ℕ → Bytes → Result Bytes
unpack n d = if length d == n then ok d else raise struct_error

-- The fields of an unpacked buffer, at their offsets.
abbrev pub byte : Bytes → ℕ → ℕ
byte d i = get_or d i 0

pub data Endian : Type 0 where
  little big : Endian

abbrev pub u16 : Endian → Bytes → ℕ → ℕ
u16 big d i = byte d i * 256 + byte d (i + 1)
u16 little d i = byte d (i + 1) * 256 + byte d i

abbrev pub u32 : Endian → Bytes → ℕ → ℕ
u32 big d i = u16 big d i * 65536 + u16 big d (i + 2)
u32 little d i = u16 little d (i + 2) * 65536 + u16 little d i

abbrev pub u64 : Endian → Bytes → ℕ → ℕ
u64 big d i = u32 big d i * 4294967296 + u32 big d (i + 4)
u64 little d i = u32 little d (i + 4) * 4294967296 + u32 little d i

-- Bit `k` of `x`, for `bool(x & (1 << k))`.
abbrev pub bit : ℕ → ℕ → Bool
bit x k = x / 2 ^ k % 2 == 1

pub at-ok : (d : Bytes) (i : ℕ) → i < length d → at d i ≡ ok (byte d i)
unfolding at
at-ok [] i h = absurd (omega arith)
at-ok (x ∷ d) zero h = refl
at-ok (x ∷ d) (suc i) h = at-ok d i (omega arith)

pub at-raise : (d : Bytes) (i : ℕ) → length d ≤ i → at d i ≡ raise index_error
unfolding at
at-raise [] i h = refl
at-raise (x ∷ d) zero h = absurd (omega arith)
at-raise (x ∷ d) (suc i) h = at-raise d i (omega arith)

pub length-slice : (d : Bytes) (a b : ℕ) → b ≤ length d → length (slice d a b) ≡ b - a
length-slice d a b h = omega (arith, length-take (b - a) (drop a d), length-drop a d)

-- A slice within the data has the length that its format wants.
pub unpack-slice :
    (n : ℕ) (d : Bytes) (a b : ℕ)
    → b ≤ length d
    → a + n ≡ b
    → unpack n (slice d a b) ≡ ok (slice d a b)
unfolding unpack
unpack-slice n d a b h e = ground (arith, length-slice d a b h)

pub byte-lt : (d : Bytes) (i : ℕ) → IsBytes d → byte d i < 256
byte-lt [] i h = omega arith
byte-lt (x ∷ d) zero h = h.0
byte-lt (x ∷ d) (suc i) h = byte-lt d i h.1

pub drop-IsBytes : (n : ℕ) (d : Bytes) → IsBytes d → IsBytes (drop n d)
drop-IsBytes zero d h = h
drop-IsBytes (suc n) [] h = tt
drop-IsBytes (suc n) (x ∷ d) h = drop-IsBytes n d h.1

pub take-IsBytes : (n : ℕ) (d : Bytes) → IsBytes d → IsBytes (take n d)
take-IsBytes zero d h = tt
take-IsBytes (suc n) [] h = tt
take-IsBytes (suc n) (x ∷ d) h = (h.0, take-IsBytes n d h.1)

pub u16-lt : (e : Endian) (d : Bytes) (i : ℕ) → IsBytes d → u16 e d i < 65536
u16-lt big d i h = omega (arith, byte-lt d i h, byte-lt d (i + 1) h)
u16-lt little d i h = omega (arith, byte-lt d i h, byte-lt d (i + 1) h)

pub u32-lt : (e : Endian) (d : Bytes) (i : ℕ) → IsBytes d → u32 e d i < 2 ^ 32
u32-lt big d i h = omega (arith, u16-lt big d i h, u16-lt big d (i + 2) h)
u32-lt little d i h = omega (arith, u16-lt little d i h, u16-lt little d (i + 2) h)

-- No exception was raised.
abbrev pub is_ok {ℓ} : {A : Type ℓ} → Result A → Bool
is_ok (ok a) = true
is_ok (raise e) = false

pub ok_of_is_ok {ℓ} : {A : Type ℓ} (m : Result A) → is_ok m ≡ true → (a : A) × (m ≡ ok a)
ok_of_is_ok (ok a) h = (a, refl)
ok_of_is_ok (raise e) h = cc

-- Steps without an exception make a computation without one.
pub bind-is_ok {ℓ κ} :
    {A : Type ℓ} {B : Type κ} (m : Result A) (f : A → Result B)
    → is_ok m ≡ true
    → ((a : A) → is_ok (f a) ≡ true)
    → is_ok (m >>= f) ≡ true
bind-is_ok (ok a) f h k = k a
bind-is_ok (raise e) f h k = cc

pub at-is_ok {κ} :
    {B : Type κ} (d : Bytes) (i : ℕ) (f : ℕ → Result B)
    → i < length d
    → ((b : ℕ) → is_ok (f b) ≡ true)
    → is_ok (at d i >>= f) ≡ true
at-is_ok d i f h k = rw (at-ok d i h) (k (byte d i))

pub if-is_ok {κ} :
    {B : Type κ} (b : Bool) (m n : Result B)
    → (b ≡ true → is_ok m ≡ true)
    → (b ≡ false → is_ok n ≡ true)
    → is_ok (if b then m else n) ≡ true
if-is_ok true m n h k = h refl
if-is_ok false m n h k = k refl

-- What holds of the value, where there is no exception.
abbrev pub Post {ℓ κ} : {A : Type ℓ} → (A → Type κ) → Result A → Type κ
Post P (ok a) = P a
Post P (raise e) = Unit

pub bind-Post {ℓ κ μ ν} :
    {A : Type ℓ} {B : Type κ} (P : A → Type μ) (Q : B → Type ν) (m : Result A) (f : A → Result B)
    → Post P m
    → ((a : A) → P a → Post Q (f a))
    → Post Q (m >>= f)
bind-Post P Q (ok a) f h k = k a h
bind-Post P Q (raise e) f h k = tt

-- A step without an exception, about whose value something is needed.
pub bind-Post-is_ok {ℓ κ μ} :
    {A : Type ℓ} {B : Type κ} (P : A → Type μ) (m : Result A) (f : A → Result B)
    → is_ok m ≡ true
    → Post P m
    → ((a : A) → P a → is_ok (f a) ≡ true)
    → is_ok (m >>= f) ≡ true
bind-Post-is_ok P (ok a) f h p k = k a p
bind-Post-is_ok P (raise e) f h p k = cc

-- A step about whose value nothing is needed.
pub then-Post {ℓ κ ν} :
    {A : Type ℓ} {B : Type κ} (Q : B → Type ν) (m : Result A) (f : A → Result B)
    → ((a : A) → Post Q (f a))
    → Post Q (m >>= f)
then-Post Q (ok a) f k = k a
then-Post Q (raise e) f k = tt

pub if-Post {ℓ κ} :
    {A : Type ℓ} (P : A → Type κ) (b : Bool) (m n : Result A)
    → (b ≡ true → Post P m)
    → (b ≡ false → Post P n)
    → Post P (if b then m else n)
if-Post P true m n h k = h refl
if-Post P false m n h k = k refl

-- Python's `==` on `bytes`.
abbrev pub bytes_beq : Bytes → Bytes → Bool
bytes_beq [] [] = true
bytes_beq [] (y ∷ ys) = false
bytes_beq (x ∷ xs) [] = false
bytes_beq (x ∷ xs) (y ∷ ys) = x == y && bytes_beq xs ys

-- What `take` takes is known by its length.
pub take-take : (n : ℕ) (d : Bytes) → take n d ≡ take (length (take n d)) d
take-take zero d = refl
take-take (suc n) [] = refl
take-take (suc n) (x ∷ d) = ap (λ l. x ∷ l) (take-take n d)
