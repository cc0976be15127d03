-- ===== src/Controller/Capacity.antt =====
-- pkg/csiplugin/controller/csi.go, `validateCapacity`. Capacities are int64, and a capacity of 0 means
-- that none is given.
pub mod Rounding
use subprovisioner.Base.{Option, none, some, not, ◌&&◌, if◌then◌else◌}
use subprovisioner.Base.Int.{ℤ, pos, ltb_ℤ, eq_ℤ, add64, div64, mul64}
use subprovisioner.Kube.Errors.{Result, ok, err, status, invalid_argument}

pub record CapacityRange : Type 0 where
  pub required_bytes : ℤ
  pub limit_bytes : ℤ

-- The named results of `validateCapacity`.
pub record Capacities : Type 0 where
  pub capacity : ℤ
  pub min_capacity : ℤ
  pub max_capacity : ℤ

-- The next multiple of 512, in int64 arithmetic.
unfoldable pub round_up : ℤ → ℤ
round_up min_capacity = mul64 (div64 (add64 min_capacity (pos 511)) 512) 512

-- The body behind the nil check.
check_range : ℤ → ℤ → Result Capacities
check_range min_capacity max_capacity =
    let capacity = round_up min_capacity in
    if eq_ℤ min_capacity (pos 0)
    then err (status invalid_argument "must specify minimum capacity")
    else if not (eq_ℤ max_capacity (pos 0)) && ltb_ℤ max_capacity min_capacity
    then err (status invalid_argument "minimum capacity must not exceed maximum capacity")
    else if not (eq_ℤ max_capacity (pos 0)) && ltb_ℤ max_capacity capacity
    then err (status invalid_argument "capacity must be a multiple of 512")
    else ok
        (record { capacity = capacity; min_capacity = min_capacity; max_capacity = max_capacity })

unfoldable pub validate_capacity : Option CapacityRange → Result Capacities
unfolding check_range
validate_capacity none = err (status invalid_argument "must specify capacity")
validate_capacity (some range) = check_range range.required_bytes range.limit_bytes
