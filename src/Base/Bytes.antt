-- ===== src/Base/Bytes.antt =====
-- Bytes, and the big-endian form of 16, 32 and 64 bit numbers.
use Prim.Native.Nat.{ℕ, ◌+◌, ◌*◌, ◌/◌, ◌%◌, ◌^◌, ◌<◌}
use mathlib.Core.Path.{◌≡◌}
use mathlib.Core.List.{List, [], ◌∷◌}
use native.Mathlib.Omega.{arith}

abbrev pub IsByte : ℕ → Type 0
IsByte b = b < 256

-- `u16::to_be_bytes` and the inverse.
abbrev pub be16 : ℕ → List ℕ
be16 n = n / 256 % 256 ∷ n % 256 ∷ []

abbrev pub from_be16 : ℕ → ℕ → ℕ
from_be16 a b = a * 256 + b

abbrev pub be32 : ℕ → List ℕ
be32 n = n / 2 ^ 24 % 256 ∷ n / 2 ^ 16 % 256 ∷ n / 256 % 256 ∷ n % 256 ∷ []

abbrev pub from_be32 : ℕ → ℕ → ℕ → ℕ → ℕ
from_be32 a b c d = a * 2 ^ 24 + b * 2 ^ 16 + c * 256 + d

abbrev pub be64 : ℕ → List ℕ
be64 n =
    n / 2 ^ 56 % 256
    ∷ n / 2 ^ 48 % 256
    ∷ n / 2 ^ 40 % 256
    ∷ n / 2 ^ 32 % 256
    ∷ n / 2 ^ 24 % 256
    ∷ n / 2 ^ 16 % 256
    ∷ n / 256 % 256
    ∷ n % 256
    ∷ []

abbrev pub from_be64 : ℕ → ℕ → ℕ → ℕ → ℕ → ℕ → ℕ → ℕ → ℕ
from_be64 a b c d e f g h = from_be32 a b c d * 2 ^ 32 + from_be32 e f g h

pub from_be16-be16 : (n : ℕ) → n < 2 ^ 16 → from_be16 (n / 256 % 256) (n % 256) ≡ n
from_be16-be16 n h = omega arith

pub from_be32-be32 :
    (n : ℕ)
    → n < 2 ^ 32
    → from_be32 (n / 2 ^ 24 % 256) (n / 2 ^ 16 % 256) (n / 256 % 256) (n % 256) ≡ n
from_be32-be32 n h = omega arith

pub be16-from_be16 : (a b : ℕ) → IsByte a → IsByte b → be16 (from_be16 a b) ≡ a ∷ b ∷ []
be16-from_be16 a b ha hb = ground arith

pub be32-from_be32 :
    (a b c d : ℕ)
    → IsByte a
    → IsByte b
    → IsByte c
    → IsByte d
    → be32 (from_be32 a b c d) ≡ a ∷ b ∷ c ∷ d ∷ []
be32-from_be32 a b c d ha hb hc hd = ground arith
