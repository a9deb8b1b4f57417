-- ===== src/Protocol/Wire.antt =====
-- Integers in memory: `memcpy` of a packed struct on a little-endian machine copies its fields one
-- after the other, each with its low byte first.
use native.Mathlib.Nat.{pow-suc}
use real_time_market_data_fe.Base.{
  ℕ, zero, suc, ◌+◌, ◌*◌, ◌/◌, ◌%◌, ◌^◌, ◌<◌, ◌≡◌, refl, ap, List, [], ◌∷◌, ◌++◌, arith, length,
  drop,
}

-- The `w` bytes of a `w`-byte integer.
unfoldable pub put_le : ℕ → ℕ → List ℕ
put_le zero n = []
put_le (suc w) n = (n % 256) ∷ put_le w (n / 256)

-- The integer in the first `w` bytes. Bytes past the end count as 0; the code relies on there being
-- enough of them.
unfoldable pub get_le : ℕ → List ℕ → ℕ
get_le zero bs = 0
get_le (suc w) [] = 0
get_le (suc w) (b ∷ bs) = b + 256 * get_le w bs

-- Every entry is a byte.
abbrev pub IsBytes : List ℕ → Type 0
IsBytes [] = Unit
IsBytes (b ∷ bs) = (b < 256) × IsBytes bs

pub length-put_le : (w n : ℕ) → length (put_le w n) ≡ w
unfolding put_le
length-put_le zero n = refl
length-put_le (suc w) n = ap suc (length-put_le w (n / 256))

pub drop-put_le : (w n : ℕ) (rest : List ℕ) → drop w (put_le w n ++ rest) ≡ rest
unfolding put_le
drop-put_le zero n rest = refl
drop-put_le (suc w) n rest = drop-put_le w (n / 256) rest

pub get_le-put_le : (w n : ℕ) (rest : List ℕ) → n < 256 ^ w → get_le w (put_le w n ++ rest) ≡ n
unfolding put_le get_le
get_le-put_le zero n rest h = omega arith
get_le-put_le (suc w) n rest h =
    omega (arith, get_le-put_le w (n / 256) rest (omega (arith, pow-suc 256 w)))

-- A value read back is below its width's bound.
pub get_le-lt : (w : ℕ) (bs : List ℕ) → IsBytes bs → get_le w bs < 256 ^ w
unfolding get_le
get_le-lt zero bs h = omega arith
get_le-lt (suc w) [] h = omega (arith, pow-suc 256 w, get_le-lt w [] tt)
get_le-lt (suc w) (b ∷ bs) h = omega (arith, pow-suc 256 w, get_le-lt w bs h.1)
