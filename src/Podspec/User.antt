-- ===== src/Podspec/User.antt =====
-- internal/podspec/spec.go: the numeric user and group of --user, and the resources.
pub mod Numeric
use docker_in_kubernetes.Prelude.{
  ℕ, zero, suc, ◌+◌, ◌-◌, ◌/◌, ◌^◌, Bool, true, false, ◌&&◌, ◌||◌, Option, none, some, List, [],
  ◌∷◌, ◌++◌, reverse, Text, text, ltb, leb, ◌==◌, if◌then◌else◌, cut, ℤ, pos, negsuc, neg,
  parse_int, int64_max,
}
use docker_in_kubernetes.Pod.{SecurityContext, Resources}
use docker_in_kubernetes.Podspec.Ports.{Result, ok, err, ◌>>=◌}

-- unicode.IsSpace.
unfoldable pub is_space : ℕ → Bool
is_space c =
    leb 9 c && leb c 13
    || c == 32
    || c == 0x85
    || c == 0xa0
    || c == 0x1680
    || leb 0x2000 c && leb c 0x200a
    || c == 0x2028
    || c == 0x2029
    || c == 0x202f
    || c == 0x205f
    || c == 0x3000

skip_spaces : Text → Text
skip_spaces [] = []
skip_spaces (c ∷ s) = if is_space c then skip_spaces s else c ∷ s

-- strings.TrimSpace.
unfoldable pub trim_space : Text → Text
unfolding skip_spaces
trim_space s = reverse (skip_spaces (reverse (skip_spaces s)))

unfoldable pub parse_unix_id : Text → Option ℕ
unfolding trim_space
parse_unix_id s = elim (parse_int (trim_space s)) [
  | some (pos n) ↦ some n
  | some (negsuc n) ↦ none
  | none ↦ none
]

bad_user : Text → Result SecurityContext
bad_user user = err (text "--user requires numeric uid[:gid], got \"" ++ user ++ text "\"")

unfoldable pub build_security_context : Text → Result SecurityContext
unfolding bad_user
build_security_context user =
    let (uid_str, gid_str, has_gid) = cut user b':' in
    elim (parse_unix_id uid_str) [
      | none ↦ bad_user user
      | some uid ↦
          let with_group : Result SecurityContext = elim (parse_unix_id gid_str) [
            | none ↦ bad_user user
            | some gid ↦ ok (record { run_as_user = uid; run_as_group = some gid })
          ] in
          if has_gid then with_group else ok (record { run_as_user = uid; run_as_group = none })
    ]

-- (n + 999_999) / 1_000_000 on int64: the sum wraps past the largest value, and the division of a
-- negative number rounds towards zero.
unfoldable pub milli_cpus : ℕ → ℤ
milli_cpus n =
    let sum : ℕ = n + 999999 in
    if leb sum int64_max then pos (sum / 1000000) else neg ((2 ^ 64 - sum) / 1000000)

unfoldable pub positive : ℤ → Option ℕ
positive (pos zero) = none
positive (pos (suc n)) = some (suc n)
positive (negsuc n) = none

-- buildResources, from the memory in bytes and the CPUs in billionths.
unfoldable pub build_resources : ℤ → ℤ → Resources
unfolding positive milli_cpus
build_resources memory nano_cpus = record {
  memory = positive memory;
  cpu = elim (positive nano_cpus) [ none ↦ none | some n ↦ some (milli_cpus n) ];
}
