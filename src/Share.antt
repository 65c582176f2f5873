-- ===== src/Share.antt =====
-- internal/share/share.go: what a slice of a card is. A float64 is the fraction that it denotes;
-- the arithmetic on it is exact. NaN and the infinities are fractions over 0.
pub mod Seats
pub mod Memory
pub mod Units
pub mod Scanning
pub mod Amounts
use gmux.Prelude.{ℕ, ◌+◌, ◌-◌, ◌*◌, ◌/◌, Bool, ◌&&◌, ltb, leb, if◌then◌else◌, not, Result, ok, err}

-- A float64 by its numerator and denominator; the sign is not kept, since the code treats every
-- number below 0 as it treats 0.
pub record Ratio : Type 0 where
  pub num : ℕ
  pub den : ℕ

abbrev pub ratio : ℕ → ℕ → Ratio
ratio a b = record { num = a; den = b }

pub data ShareError : Type 0 where
  no_seats : ShareError
  bad_share : Ratio → ShareError

abbrev pub default_seats : ℕ
default_seats = 8

-- `f > 0 && f <= 1`, false of NaN.
unfoldable pub is_share : Ratio → Bool
is_share f = ltb 0 f.num && (ltb 0 f.den && leb f.num f.den)

-- 1 / 1e-9, the tolerance of `seats`.
abbrev pub tolerance : ℕ
tolerance = 1_000_000_000

-- `math.Ceil(a / b)`.
unfoldable pub ceil_div : ℕ → ℕ → ℕ
ceil_div a b = (a + (b - 1)) / b

-- `math.Ceil(fraction*n - 1e-9)`: over the common denominator `den * 1e9`.
unfoldable pub seats_raw : Ratio → ℕ → ℕ
seats_raw f n = ceil_div (f.num * n * tolerance - f.den) (f.den * tolerance)

unfoldable pub clamp_seats : ℕ → ℕ → ℕ
clamp_seats s n = let s' = if ltb s 1 then 1 else s in if ltb n s' then n else s'

unfoldable pub seats : Ratio → ℕ → Result ShareError ℕ
unfolding clamp_seats
seats f n =
    if ltb n 1
    then err no_seats
    else if not (is_share f)
    then err (bad_share f)
    else ok (clamp_seats (seats_raw f n) n)

unfoldable pub granted : ℕ → ℕ → Ratio
granted seats n = ratio seats n

-- `math.Round(100 * seats / n)`, and at least 1.
unfoldable pub compute_percent : ℕ → ℕ → ℕ
compute_percent seats n = let p = (200 * seats + n) / (2 * n) in if ltb p 1 then 1 else p

unfoldable pub default_mem_mib : ℕ → ℕ → ℕ → ℕ
default_mem_mib seats n card_mib = let m = card_mib * seats / n in if ltb m 256 then 256 else m
