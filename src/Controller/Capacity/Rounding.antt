-- ===== src/Controller/Capacity/Rounding.antt =====
-- What `validateCapacity` accepts, and the capacity that it chooses.
use subprovisioner.Base.{
  ℕ, suc, ◌+◌, ◌-◌, ◌*◌, ◌/◌, ◌%◌, ◌≤◌, ◌<◌, ◌≡◌, true, some, ◌||◌, arith, ltb, leb, nat_eq,
  if◌then◌else◌,
}
use subprovisioner.Base.Int.{pos, negsuc, half_range, full_range, ltb_ℤ, add64, div64, mul64}
use subprovisioner.Kube.Errors.{Result, ok, err, status, invalid_argument}
use subprovisioner.Controller.Capacity.{CapacityRange, Capacities, round_up, validate_capacity}

abbrev pub range : ℕ → ℕ → CapacityRange
range required limit = record { required_bytes = pos required; limit_bytes = pos limit }

add64-pos : (n : ℕ) → n + 511 < half_range → add64 (pos n) (pos 511) ≡ pos (n + 511)
add64-pos n h = ground arith

mul64-pos : (n : ℕ) → n * 512 < half_range → mul64 (pos n) 512 ≡ pos (n * 512)
mul64-pos n h = ground arith

round_up-pos : (n : ℕ) → n + 511 < half_range → round_up (pos n) ≡ pos ((n + 511) / 512 * 512)
unfolding round_up
round_up-pos n h = rw (add64-pos n h) (mul64-pos ((n + 511) / 512) (omega arith))

-- The answer that a request deserves, by a capacity.
abbrev pub verdict : ℕ → ℕ → ℕ → Result Capacities
verdict capacity required limit =
    if nat_eq limit 0 || leb capacity limit
    then ok
        (record { capacity = pos capacity; min_capacity = pos required; max_capacity = pos limit })
    else if ltb limit required
    then err (status invalid_argument "minimum capacity must not exceed maximum capacity")
    else err (status invalid_argument "capacity must be a multiple of 512")

-- For a positive required size whose rounding stays in int64, and any limit: there is a multiple of
-- 512 that is at least the required size and less than 512 above it; it is accepted as the capacity
-- if there is no limit or the limit is not below it, and otherwise the request is refused as an
-- invalid argument, with a message of its own for a limit below the required size.
pub validate_capacity_exact :
    (required limit : ℕ)
    → 0 < required
    → required + 511 < half_range
    → (capacity : ℕ) × (capacity % 512 ≡ 0)
      × (required ≤ capacity)
      × (capacity < required + 512)
      × (validate_capacity (some (range required limit)) ≡ verdict capacity required limit)
unfolding validate_capacity
validate_capacity_exact required limit positive fits = (
  (required + 511) / 512 * 512,
  omega arith,
  omega arith,
  omega arith,
  rw (round_up-pos required fits) (ground arith),
)

-- int64 sums from 2 ^ 63 on are negative.
add64_wraps :
    (n : ℕ)
    → n < half_range
    → half_range ≤ n + 511
    → add64 (pos n) (pos 511) ≡ negsuc (full_range - (n + 511) - 1)
add64_wraps n small big = ground arith

div64-negsuc : (m : ℕ) → 512 ≤ suc m → div64 (negsuc m) 512 ≡ negsuc (suc m / 512 - 1)
div64-negsuc m h = ground arith

mul64-negsuc : (k : ℕ) → suc k * 512 ≤ half_range → mul64 (negsuc k) 512 ≡ negsuc (suc k * 512 - 1)
mul64-negsuc k h = ground arith

round_up_wraps :
    (n : ℕ) → n < half_range → half_range ≤ n + 511 → (m : ℕ) × (round_up (pos n) ≡ negsuc m)
unfolding round_up
round_up_wraps n small big =
    let m = full_range - (n + 511) - 1 in
    let k = suc m / 512 - 1 in
    (
      suc k * 512 - 1,
      rw (add64_wraps n small big, div64-negsuc m (omega arith)) (mul64-negsuc k (omega arith)),
    )

-- Where rounding up leaves int64, any limit that is not below the required size, and no limit, is
-- accepted with a negative capacity.
pub validate_capacity_overflow :
    (required limit : ℕ)
    → required < half_range
    → half_range ≤ required + 511
    → (nat_eq limit 0 || leb required limit) ≡ true
    → (c : Capacities) × (validate_capacity (some (range required limit)) ≡ ok c)
      × (ltb_ℤ c.capacity (pos 0) ≡ true)
unfolding validate_capacity
validate_capacity_overflow required limit small big allowed =
    let (m, wraps) = round_up_wraps required small big in
    (
      record { capacity = negsuc m; min_capacity = pos required; max_capacity = pos limit },
      rw wraps (ground arith),
      ground arith,
    )
