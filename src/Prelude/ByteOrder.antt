-- ===== src/Prelude/ByteOrder.antt =====
-- The order of byte strings, and that the big-endian encoding keeps the order of numbers.
use mathlib.Core.List.{foldl-append}
use Prim.Native.Nat.{ℕ, zero, suc, ◌/◌, ◌%◌, ◌^◌, ◌<◌}
use mathlib.Core.Path.{◌≡◌, refl, sym, ◌∙◌}
use mathlib.Core.Logic.{◌⊎◌, inl, inr}
use mathlib.Core.Bool.{true, false, ◌&&◌, ◌||◌}
use mathlib.Core.List.{[], ◌∷◌, ◌++◌}
use native.Mathlib.Omega.{arith}
use native.Mathlib.Nat.{pow-suc}
use sekas.Prelude.Tests.{ltb}
use sekas.Prelude.Lists.{length, length-append}
use sekas.Prelude.ByteStrings.{
  Bytes, bytes_eq, bytes_lt, be_bytes, le_bytes, from_be_bytes, bytes_eq_refl,
}

pub bytes_lt_irrefl : (xs : Bytes) → bytes_lt xs xs ≡ false
unfolding bytes_lt
bytes_lt_irrefl [] = refl
bytes_lt_irrefl (x ∷ xs) = ground (arith, bytes_lt_irrefl xs)

pub bytes_lt_trans :
    (xs ys zs : Bytes) → bytes_lt xs ys ≡ true → bytes_lt ys zs ≡ true → bytes_lt xs zs ≡ true
unfolding bytes_lt
bytes_lt_trans [] [] zs h k = cc
bytes_lt_trans (x ∷ xs) [] zs h k = cc
bytes_lt_trans [] (y ∷ ys) [] h k = cc
bytes_lt_trans [] (y ∷ ys) (z ∷ zs) h k = refl
bytes_lt_trans (x ∷ xs) (y ∷ ys) [] h k = cc
bytes_lt_trans (x ∷ xs) (y ∷ ys) (z ∷ zs) h k = ground (arith, bytes_lt_trans xs ys zs)

pub bytes_lt_trichotomy :
    (xs ys : Bytes) → (xs ≡ ys) ⊎ ((bytes_lt xs ys ≡ true) ⊎ (bytes_lt ys xs ≡ true))
unfolding bytes_lt
bytes_lt_trichotomy [] [] = inl refl
bytes_lt_trichotomy [] (y ∷ ys) = inr (inl refl)
bytes_lt_trichotomy (x ∷ xs) [] = inr (inr refl)
bytes_lt_trichotomy (x ∷ xs) (y ∷ ys) = ground (arith, bytes_lt_trichotomy xs ys)

pub bytes_lt_asymm : (xs ys : Bytes) → bytes_lt xs ys ≡ true → bytes_lt ys xs ≡ false
unfolding bytes_lt
bytes_lt_asymm [] [] h = refl
bytes_lt_asymm [] (y ∷ ys) h = refl
bytes_lt_asymm (x ∷ xs) [] h = cc
bytes_lt_asymm (x ∷ xs) (y ∷ ys) h = ground (arith, bytes_lt_asymm xs ys)

-- A common prefix does not matter.
pub bytes_lt-append_left : (ps xs ys : Bytes) → bytes_lt (ps ++ xs) (ps ++ ys) ≡ bytes_lt xs ys
unfolding bytes_lt
bytes_lt-append_left [] xs ys = refl
bytes_lt-append_left (p ∷ ps) xs ys = ground (arith, bytes_lt-append_left ps xs ys)

-- Between two strings of one length what follows does not matter.
pub bytes_lt-append_right :
    (xs ys s t : Bytes)
    → length xs ≡ length ys
    → bytes_lt xs ys ≡ true
    → bytes_lt (xs ++ s) (ys ++ t) ≡ true
unfolding bytes_lt
bytes_lt-append_right [] [] s t e h = cc
bytes_lt-append_right [] (y ∷ ys) s t e h = absurd (omega arith)
bytes_lt-append_right (x ∷ xs) [] s t e h = absurd (omega arith)
bytes_lt-append_right (x ∷ xs) (y ∷ ys) s t e h = ground (arith, bytes_lt-append_right xs ys s t)

pub length-be_bytes : (k n : ℕ) → length (be_bytes k n) ≡ k
unfolding be_bytes
length-be_bytes zero n = refl
length-be_bytes (suc k) n =
    omega (arith, length-append (be_bytes k (n / 256)) (n % 256 ∷ []), length-be_bytes k (n / 256))

pub length-le_bytes : (k n : ℕ) → length (le_bytes k n) ≡ k
unfolding le_bytes
length-le_bytes zero n = refl
length-le_bytes (suc k) n = omega (arith, length-le_bytes k (n / 256))

div_bound : (k n : ℕ) → n < 256 ^ suc k → n / 256 < 256 ^ k
div_bound k n h = omega (arith, pow-suc 256 k)

-- `from_be_bytes` of the encoding gives the number back.
pub from_be_bytes-be_bytes : (k n : ℕ) → n < 256 ^ k → from_be_bytes (be_bytes k n) ≡ n
unfolding be_bytes from_be_bytes
from_be_bytes-be_bytes zero n h = omega arith
from_be_bytes-be_bytes (suc k) n h =
    rw foldl-append (omega (arith, from_be_bytes-be_bytes k (n / 256) (div_bound k n h)))

pub bytes_lt-snoc :
    (xs ys : Bytes) (x y : ℕ)
    → length xs ≡ length ys
    → bytes_lt (xs ++ x ∷ []) (ys ++ y ∷ []) ≡ (bytes_lt xs ys || (bytes_eq xs ys && ltb x y))
unfolding bytes_lt bytes_eq
bytes_lt-snoc [] [] x y e = ground arith
bytes_lt-snoc [] (b ∷ ys) x y e = absurd (omega arith)
bytes_lt-snoc (a ∷ xs) [] x y e = absurd (omega arith)
bytes_lt-snoc (a ∷ xs) (b ∷ ys) x y e = ground (arith, bytes_lt-snoc xs ys x y)

split_lt : (m n : ℕ) → m < n → (m / 256 < n / 256) ⊎ ((m / 256 ≡ n / 256) × (m % 256 < n % 256))
split_lt m n h = omega arith

-- The big-endian encoding is monotone.
pub bytes_lt-be_bytes :
    (k m n : ℕ) → m < n → n < 256 ^ k → bytes_lt (be_bytes k m) (be_bytes k n) ≡ true
unfolding be_bytes
bytes_lt-be_bytes zero m n h b = absurd (omega arith)
bytes_lt-be_bytes (suc k) m n h b =
    rw
      (bytes_lt-snoc (be_bytes k (m / 256)) (be_bytes k (n / 256)) (m % 256) (n % 256)
        (length-be_bytes k (m / 256) ∙ sym (length-be_bytes k (n / 256))))
      (elim (split_lt m n h) [
        | inl l ↦ rw (bytes_lt-be_bytes k (m / 256) (n / 256) l (div_bound k n b))
        | inr (e, l) ↦ rw e (ground (arith, bytes_eq_refl (be_bytes k (n / 256))))
      ])
