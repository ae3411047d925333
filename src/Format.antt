-- ===== src/Format.antt =====
-- frontend/src/lib/utils.ts: `formatBytes`. A size is an integer, a quotient by a power of two is
-- exact in floating point, and `toFixed(1)` takes the nearest tenth, the larger of two that are
-- equally near; so the tenths are computed here in integers.
use crag_project.Base.{
  ℕ, ◌+◌, ◌*◌, ◌/◌, ◌%◌, ◌≤◌, ◌<◌, ◌≡◌, ltb, if◌then◌else◌, arith, ◌∷◌, ◌++◌, ◌↔◌,
}
use crag_project.Text.{Text, codes}
use crag_project.Text.Decimal.{decimal}

-- The number of tenths in `(n / unit).toFixed(1)`.
unfoldable pub tenths : ℕ → ℕ → ℕ
tenths n unit = (20 * n + unit) / (2 * unit)

-- A number of tenths as `toFixed(1)` writes it.
unfoldable pub fixed_one : ℕ → Text
fixed_one t = decimal (t / 10) ++ (b'.' ∷ decimal (t % 10))

pub data Size : Type 0 where
  bytes kilobytes megabytes : ℕ → Size

-- The unit, and the number that is shown: a whole one of bytes, or tenths of the larger units.
unfoldable pub size_of : ℕ → Size
unfolding tenths
size_of n =
    if ltb n 1024
    then bytes n
    else if ltb n (1024 * 1024)
    then kilobytes (tenths n 1024)
    else megabytes (tenths n (1024 * 1024))

unfoldable pub size_text : Size → Text
unfolding fixed_one
size_text (bytes n) = decimal n ++ codes " B"
size_text (kilobytes t) = fixed_one t ++ codes " KB"
size_text (megabytes t) = fixed_one t ++ codes " MB"

unfoldable pub format_bytes : ℕ → Text
unfolding size_of size_text
format_bytes n = size_text (size_of n)

-- The size that a figure stands for lies within half a tenth of the unit of the true one.
abbrev pub IsNear : ℕ → Size → Type 0
IsNear n (bytes m) = n ≡ m
IsNear n (kilobytes t) = (10 * n ≤ t * 1024 + 512) × (t * 1024 ≤ 10 * n + 512)
IsNear n (megabytes t) = (10 * n ≤ t * 1048576 + 524288) × (t * 1048576 ≤ 10 * n + 524288)

-- A figure in kilobytes is 1.0 at least and 1024.0 at most, one in megabytes 1.0 at least.
abbrev pub IsScaled : Size → Type 0
IsScaled (bytes m) = m < 1024
IsScaled (kilobytes t) = (10 ≤ t) × (t ≤ 10240)
IsScaled (megabytes t) = 10 ≤ t

-- The figure that is shown is the nearest one, in a unit in which it has a plain size.
pub size_of-IsNear : (n : ℕ) → IsNear n (size_of n) × IsScaled (size_of n)
unfolding size_of
size_of-IsNear n = ground arith

-- A size just below a megabyte is shown as 1024.0 KB, exactly from 1048525 bytes on.
pub size_of-eq-1024_kb : (n : ℕ) → (size_of n ≡ kilobytes 10240) ↔ ((1048525 ≤ n) × (n < 1048576))
unfolding size_of
size_of-eq-1024_kb n = ground arith
