-- ===== src/Podspec/User/Numeric.antt =====
-- What --user and --cpus mean (internal/podspec/spec.go).
use docker_in_kubernetes.Prelude.{
  ℕ, zero, suc, ◌+◌, ◌-◌, ◌*◌, ◌^◌, ◌/◌, ◌≤◌, ◌<◌, ◌≡◌, arith, pos, negsuc, neg, int64_max,
}
use docker_in_kubernetes.Podspec.User.{milli_cpus}

-- The number of milli-CPUs is the least one that is not below the CPUs asked for, as long as the
-- sum does not pass the largest int64.
pub milli_cpus_lem :
    (n : ℕ)
    → n + 999999 ≤ int64_max
    → (m : ℕ) × (milli_cpus n ≡ pos m) × (n ≤ m * 1000000) × (m * 1000000 < n + 1000000)
unfolding milli_cpus
milli_cpus_lem n h = ((n + 999999) / 1000000, ground arith, omega arith, omega arith)

-- The opposite of a positive number is a negative one.
neg_positive : (m : ℕ) → 0 < m → neg m ≡ negsuc (m - 1)
neg_positive zero h = ground arith
neg_positive (suc m) h = ground arith

-- Where the rounding up passes the largest int64, for the 999,999 largest amounts of CPU, the sum
-- wraps, and the container asks for a negative amount of CPU.
pub milli_cpus_overflow :
    (n : ℕ) → n ≤ int64_max → int64_max < n + 999999 → (m : ℕ) × (milli_cpus n ≡ negsuc m)
unfolding milli_cpus
milli_cpus_overflow n h k =
    let far : 1000000 ≤ 2 ^ 64 - (n + 999999) = omega arith in
    let m = (2 ^ 64 - (n + 999999)) / 1000000 in
    let pos : 0 < m = omega arith in (m - 1, ground (arith, neg_positive m pos))
