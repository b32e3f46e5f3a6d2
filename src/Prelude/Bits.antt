-- ===== src/Prelude/Bits.antt =====
-- The bits of a word: what `&` and `|` with a flag of one bit do. A flag is given by its bit's number.
use Prim.Native.Nat.{ℕ, zero, suc, ◌+◌, ◌*◌, ◌/◌, ◌%◌, ◌^◌, ◌<◌, ◌≤◌}
use mathlib.Core.Path.{◌≡◌, ◌∙◌, ap}
use mathlib.Core.Bool.{Bool, true, false, ◌||◌}
use mathlib.Core.Logic.{inl, inr}
use native.Mathlib.Omega.{arith}
use libfaim.Prelude.Tests.{if◌then◌else◌, ◌==◌, Bool-cases, ==→eq}
use libfaim.Prelude.Lists.{suc-==}

unfoldable pub has_bit : ℕ → ℕ → Bool
has_bit zero n = n % 2 == 1
has_bit (suc k) n = has_bit k (n / 2)

unfoldable pub set_bit : ℕ → ℕ → ℕ
set_bit k n = if has_bit k n then n else n + 2 ^ k

add_bit : (j k n : ℕ) → has_bit k n ≡ false → has_bit j (n + 2 ^ k) ≡ ((j == k) || has_bit j n)
unfolding has_bit
add_bit zero zero n h = ground arith
add_bit zero (suc k) n h =
    let e : 2 ^ suc k ≡ 2 * 2 ^ k = omega arith in
    let m : (n + 2 ^ suc k) % 2 ≡ n % 2 = omega (arith, e) in rw m (ground arith)
add_bit (suc j) zero n h = let m : (n + 2 ^ zero) / 2 ≡ n / 2 = ground arith in rw m (ground arith)
add_bit (suc j) (suc k) n h =
    let e : 2 ^ suc k ≡ 2 * 2 ^ k = omega arith in
    let m : (n + 2 ^ suc k) / 2 ≡ n / 2 + 2 ^ k = omega (arith, e) in
    rw m (add_bit j k (n / 2) h ∙ ap (λ b. b || has_bit j (n / 2)) (suc-== j k))

same : (j k n : ℕ) → has_bit k n ≡ true → has_bit j n ≡ ((j == k) || has_bit j n)
same j k n h = elim (Bool-cases (j == k)) [ inl e ↦ rw (e, ==→eq j k e, h) | inr e ↦ rw e ]

-- Setting a bit sets this bit and no other.
pub has_bit-set_bit : (j k n : ℕ) → has_bit j (set_bit k n) ≡ ((j == k) || has_bit j n)
unfolding set_bit
has_bit-set_bit j k n = elim (Bool-cases (has_bit k n)) [
  | inl h ↦ rw h (same j k n h)
  | inr h ↦ rw h (add_bit j k n h)
]

pub has_bit-bound : (k w n : ℕ) → n < 2 ^ w → has_bit k n ≡ true → k < w
unfolding has_bit
has_bit-bound zero zero n h e = ground arith
has_bit-bound zero (suc w) n h e = omega arith
has_bit-bound (suc k) zero n h e =
    absurd (omega (arith, has_bit-bound k zero (n / 2) (omega arith) e))
has_bit-bound (suc k) (suc w) n h e =
    let p : 2 ^ suc w ≡ 2 * 2 ^ w = omega arith in
    omega (arith, has_bit-bound k w (n / 2) (omega (arith, p)) e)

bits-eq_within : (f n m : ℕ) → n ≤ f → m ≤ f → ((k : ℕ) → has_bit k n ≡ has_bit k m) → n ≡ m
unfolding has_bit
bits-eq_within zero n m hn hm h = omega arith
bits-eq_within (suc f) n m hn hm h =
    let halves = bits-eq_within f (n / 2) (m / 2) (omega arith) (omega arith) (λ k. h (suc k)) in
    ground (arith, halves, h zero)

-- Numbers with the same bits are equal.
pub bits-eq : (n m : ℕ) → ((k : ℕ) → has_bit k n ≡ has_bit k m) → n ≡ m
bits-eq n m h = bits-eq_within (n + m) n m (omega arith) (omega arith) h
