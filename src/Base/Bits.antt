-- ===== src/Base/Bits.antt =====
-- Facts about bit operations on one byte, each checked over its table.
use Prim.Native.Nat.{ℕ, zero, suc, ◌*◌, ◌/◌, ◌%◌, ◌<◌, bit_and}
use mathlib.Core.Path.{◌≡◌, refl}
use mathlib.Core.Bool.{Bool, true, ◌&&◌}
use native.Mathlib.Omega.{arith}
use loom_host.Base.Tests.{◌==◌, ==_iff}

module _ (p : ℕ → Bool) where
  unfoldable pub all_below : ℕ → Bool
  all_below zero = true
  all_below (suc n) = p n && all_below n

  pub all_below_sound : (n x : ℕ) → all_below n ≡ true → x < n → p x ≡ true
  unfolding all_below
  all_below_sound zero x h lt = absurd (omega arith)
  all_below_sound (suc n) x h lt = ground (arith, all_below_sound n x)

module _ (f g : ℕ → ℕ) where
  -- Two functions agree below `n` where their table does.
  pub agree_below : (n : ℕ) → all_below (λ x. f x == g x) n ≡ true → (x : ℕ) → x < n → f x ≡ g x
  agree_below n h x lt = (==_iff (f x) (g x)).0 (all_below_sound (λ y. f y == g y) n x h lt)

pub bit_and_one : (x : ℕ) → x < 256 → bit_and x 1 ≡ x % 2
unfolding all_below
bit_and_one = agree_below (λ x. bit_and x 1) (λ x. x % 2) 256 refl

pub bit_and_two : (x : ℕ) → x < 256 → bit_and x 2 ≡ x / 2 % 2 * 2
unfolding all_below
bit_and_two = agree_below (λ x. bit_and x 2) (λ x. x / 2 % 2 * 2) 256 refl
