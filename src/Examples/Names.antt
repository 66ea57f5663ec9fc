-- ===== src/Examples/Names.antt =====
-- Pod names, port specs and users (internal/podspec).
use mathlib.Core.List.Perm
use docker_in_kubernetes.Prelude.{
  ℕ, zero, suc, ◌+◌, ◌≡◌, ◌≢◌, ◌↔◌, ◌≤◌, ◌<◌, refl, Text, text, none, some, List, [], ◌∷◌, ◌++◌,
  map, arith, length, All, true, false, Perm, itoa, int64_max, pos, negsuc, if◌then◌else◌,
}
use docker_in_kubernetes.Podspec.Name.{
  sanitize_name, generated_stem, generated_name, is_alnum, to_lower,
}
use docker_in_kubernetes.Podspec.Name.Trim.{IsLabel}
use docker_in_kubernetes.Podspec.Name.Generated.{generated_name-IsLabel, generated_name_clash}
use docker_in_kubernetes.Podspec.Ports.{
  PortMapping, ok, parse_port_spec, is_known, parse_port_bindings,
}
use docker_in_kubernetes.Podspec.Ports.Spec.{parse_port_spec-print}
use docker_in_kubernetes.Podspec.Ports.Deterministic.{parse_port_bindings-perm}
use docker_in_kubernetes.Podspec.User.{milli_cpus}
use docker_in_kubernetes.Podspec.User.Numeric.{milli_cpus_overflow}

abbrev container_name : Text
container_name = b'M' ∷ b'y' ∷ b'_' ∷ b'A' ∷ []

abbrev clean_name : Text
clean_name = b'm' ∷ b'y' ∷ b'-' ∷ b'a' ∷ []

container_name-ne : container_name ≢ []
container_name-ne e = ground arith

container_name_cleaned : sanitize_name [] container_name ≡ some clean_name
unfolding sanitize_name docker_in_kubernetes.Podspec.Name.collapse is_alnum to_lower
container_name_cleaned = refl

abbrev dashes : Text
dashes = b'-' ∷ b'_' ∷ []

abbrev image_nginx : Text
image_nginx = b'n' ∷ b'g' ∷ b'i' ∷ b'n' ∷ b'x' ∷ b':' ∷ b'1' ∷ []

abbrev six_digits : Text
six_digits = b'0' ∷ b'1' ∷ b'2' ∷ b'a' ∷ b'b' ∷ b'c' ∷ []

nginx_stem : length (generated_stem image_nginx) ≤ 56
unfolding generated_stem sanitize_name text docker_in_kubernetes.Podspec.Name.collapse is_alnum
    to_lower docker_in_kubernetes.Podspec.Name.image_base
nginx_stem = omega arith

six_alnum : All (λ c. is_alnum c ≡ true) six_digits
unfolding is_alnum
six_alnum = (refl, (refl, (refl, (refl, (refl, (refl, tt))))))

generated_name-IsLabel_example :
    (generated_name image_nginx six_digits ≡ generated_stem image_nginx ++ b'-' ∷ six_digits)
    × IsLabel (generated_name image_nginx six_digits)
generated_name-IsLabel_example =
    generated_name-IsLabel image_nginx six_digits nginx_stem refl six_alnum

-- An image whose name has 57 letters, and one with 58.
abbrev letters : ℕ → Text
letters zero = []
letters (suc n) = b'a' ∷ letters n

letters_57 : length (generated_stem (letters 57)) ≡ 62
unfolding generated_stem sanitize_name text docker_in_kubernetes.Podspec.Name.collapse is_alnum
    to_lower docker_in_kubernetes.Podspec.Name.image_base
letters_57 = refl

six_digits-ne : six_digits ≢ []
six_digits-ne e = ground arith

letters_58 : length (generated_stem (letters 58)) ≡ 63
unfolding generated_stem sanitize_name text docker_in_kubernetes.Podspec.Name.collapse is_alnum
    to_lower docker_in_kubernetes.Podspec.Name.image_base
letters_58 = refl

generated_name_clash_example : generated_name (letters 58) six_digits ≡ generated_stem (letters 58)
generated_name_clash_example = generated_name_clash (letters 58) six_digits letters_58

abbrev proto_udp : Text
proto_udp = b'u' ∷ b'd' ∷ b'p' ∷ []

udp_known : is_known proto_udp ≡ true
unfolding text docker_in_kubernetes.Prelude.text_eq
udp_known = refl

parse_port_spec-print_example :
    (parse_port_spec (itoa 53 ++ b'/' ∷ proto_udp) ≡ ok (53, proto_udp))
    × (parse_port_spec (itoa 53) ≡ ok (53, text "tcp"))
parse_port_spec-print_example =
    parse_port_spec-print 53 proto_udp (omega arith) (omega arith) udp_known

spec_53 : parse_port_spec (b'5' ∷ b'3' ∷ b'/' ∷ proto_udp) ≡ ok (53, proto_udp)
unfolding parse_port_spec docker_in_kubernetes.Prelude.text_eq docker_in_kubernetes.Prelude.cut text
    docker_in_kubernetes.Prelude.parse_uint docker_in_kubernetes.Prelude.digits_from
spec_53 = refl

abbrev dns_port : PortMapping
dns_port = record { host_port = []; container_port = 53; protocol = proto_udp }

abbrev bindings_a : List (Text × List Text)
bindings_a = ((b'8' ∷ b'0' ∷ []), (b'9' ∷ []) ∷ []) ∷ ((b'2' ∷ b'2' ∷ []), []) ∷ []

abbrev bindings_b : List (Text × List Text)
bindings_b = ((b'2' ∷ b'2' ∷ []), []) ∷ ((b'8' ∷ b'0' ∷ []), (b'9' ∷ []) ∷ []) ∷ []

abbrev ssh_and_web : List PortMapping
ssh_and_web =
    record { host_port = []; container_port = 22; protocol = text "tcp" }
    ∷ record { host_port = b'9' ∷ []; container_port = 80; protocol = text "tcp" }
    ∷ []

parse_port_bindings-perm_example :
    (parse_port_bindings bindings_a [] ≡ ok ssh_and_web)
    ↔ (parse_port_bindings bindings_b [] ≡ ok ssh_and_web)
parse_port_bindings-perm_example =
    parse_port_bindings-perm bindings_a bindings_b [] []
      (Perm.swap ((b'2' ∷ b'2' ∷ []), []) ((b'8' ∷ b'0' ∷ []), (b'9' ∷ []) ∷ []) []) (Perm.refl [])
      ssh_and_web

milli_cpus_overflow_example : (m : ℕ) × (milli_cpus int64_max ≡ negsuc m)
milli_cpus_overflow_example = milli_cpus_overflow int64_max (omega arith) (omega arith)
