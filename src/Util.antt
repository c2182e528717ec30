-- ===== src/Util.antt =====
-- src/ax_interface/util.py: padding and the update interval.
pub mod Text
pub mod Mac
pub mod Ip
use sonic_snmpagent.Prelude.{
  ℕ, ◌+◌, ◌-◌, ◌*◌, ◌/◌, ◌%◌, ◌<◌, ◌≤◌, ◌≡◌, ◌⊎◌, refl, arith, List, [], ◌∷◌, replicate, length,
  length-replicate,
}
use Prim.Native.Nat.{min, max}
use sonic_snmpagent.Constants.{update_frequency_rate, max_update_interval}

-- `-(length % -4)`: Python's remainder by -4 lies in -3 .. 0, so this is (-length) mod 4.
unfoldable pub pad4 : ℕ → ℕ
pad4 length = (4 - length % 4) % 4

unfoldable pub pad4bytes : ℕ → List ℕ
pad4bytes length = replicate (pad4 length) 0

-- The padding is the least number of bytes that completes a multiple of four.
pub pad4_bounds : (n : ℕ) → (pad4 n < 4) × ((n + pad4 n) % 4 ≡ 0)
unfolding pad4
pad4_bounds n = omega arith

pub length-pad4bytes : (n : ℕ) → length (pad4bytes n) ≡ pad4 n
unfolding pad4bytes
length-pad4bytes n = length-replicate (pad4 n) 0

-- The execution time is given in microseconds, the resolution of `datetime.now()`, and
-- `math.ceil(execution_time * 10)` is taken of the exact product.
unfoldable pub get_next_update_interval : ℕ → ℕ → ℕ
get_next_update_interval execution_time static_frequency =
    let by_time = (execution_time * update_frequency_rate + 999999) / 1000000 in
    max static_frequency (min by_time max_update_interval)

-- The interval is never below the static frequency, never above both the static frequency and one
-- minute, and it is at least one minute or at least ten times the execution time.
pub update_interval_bounds :
    (t f : ℕ)
    → (f ≤ get_next_update_interval t f)
      × (get_next_update_interval t f ≤ max f 60)
      × ((60 ≤ get_next_update_interval t f) ⊎ (t * 10 ≤ get_next_update_interval t f * 1000000))
unfolding get_next_update_interval
update_interval_bounds t f = grind arith
