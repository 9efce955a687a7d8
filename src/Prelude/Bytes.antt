-- ===== src/Prelude/Bytes.antt =====
-- Byte strings as lists of numbers below 256, and Go's encoding/binary: fixed-width unsigned
-- integers in little-endian and big-endian order.
use Prim.Native.Nat.{ℕ, zero, suc, ◌+◌, ◌-◌, ◌*◌, ◌/◌, ◌%◌, ◌^◌, ◌<◌}
use mathlib.Core.Path.{◌≡◌, refl, ap, ◌∙◌}
use mathlib.Core.List.{List, [], ◌∷◌, reverse, reverse-reverse}
use mathlib.Core.Bool.{Bool, true, false, ◌&&◌}
use go_mongo_sync.Prelude.Tests.{◌==◌}
use native.Mathlib.Nat.{pow-suc}
use native.Mathlib.Omega.{arith}
use go_mongo_sync.Prelude.Lists.{length, take, drop, length-reverse}

abbrev pub Bytes : Type 0
Bytes = List ℕ

-- `binary.LittleEndian.PutUint…`: the low `k` bytes of `n`, the lowest first.
abbrev pub le_bytes : ℕ → ℕ → Bytes
le_bytes zero n = []
le_bytes (suc k) n = (n % 256) ∷ le_bytes k (n / 256)

-- `binary.LittleEndian.Uint…`.
abbrev pub le_nat : Bytes → ℕ
le_nat [] = 0
le_nat (b ∷ bs) = b + 256 * le_nat bs

abbrev pub be_bytes : ℕ → ℕ → Bytes
be_bytes k n = reverse (le_bytes k n)

abbrev pub be_nat : Bytes → ℕ
be_nat bs = le_nat (reverse bs)

-- `xs[lo:hi]`
abbrev pub slice : ℕ → ℕ → Bytes → Bytes
slice lo hi xs = take (hi - lo) (drop lo xs)

pub le_nat-le_bytes : (k n : ℕ) → n < 256 ^ k → le_nat (le_bytes k n) ≡ n
le_nat-le_bytes zero n h = omega arith
le_nat-le_bytes (suc k) n h =
    omega (arith, le_nat-le_bytes k (n / 256) (omega (arith, pow-suc 256 k)))

pub be_nat-be_bytes : (k n : ℕ) → n < 256 ^ k → be_nat (be_bytes k n) ≡ n
be_nat-be_bytes k n h = rw reverse-reverse (le_nat-le_bytes k n h)

pub length-le_bytes : (k n : ℕ) → length (le_bytes k n) ≡ k
length-le_bytes zero n = refl
length-le_bytes (suc k) n = ap suc (length-le_bytes k (n / 256))

pub length-be_bytes : (k n : ℕ) → length (be_bytes k n) ≡ k
length-be_bytes k n = length-reverse (le_bytes k n) ∙ length-le_bytes k n

-- Equality of byte strings, Go's `==` on strings.
abbrev pub bytes_eq : Bytes → Bytes → Bool
bytes_eq [] [] = true
bytes_eq [] (b ∷ bs) = false
bytes_eq (a ∷ as') [] = false
bytes_eq (a ∷ as') (b ∷ bs) = a == b && bytes_eq as' bs

pub bytes_eq_refl : (a : Bytes) → bytes_eq a a ≡ true
bytes_eq_refl [] = refl
bytes_eq_refl (a ∷ as') = ground (arith, bytes_eq_refl as')

pub bytes_eq→eq : (a b : Bytes) → bytes_eq a b ≡ true → a ≡ b
bytes_eq→eq [] [] h = refl
bytes_eq→eq [] (b ∷ bs) h = cc
bytes_eq→eq (a ∷ as') [] h = cc
bytes_eq→eq (a ∷ as') (b ∷ bs) h = ground (arith, bytes_eq→eq as' bs)
