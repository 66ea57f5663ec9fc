-- ===== src/Podspec/Name.antt =====
-- internal/podspec/name.go: Kubernetes names from Docker names and images. Random bytes are an
-- argument. strings.ToLower is written out for the characters that it takes to an ASCII letter: any
-- other is replaced by a dash, whatever it is in lower case.
pub mod Trim
pub mod Sane
pub mod Generated
use docker_in_kubernetes.Prelude.{
  ℕ, zero, suc, ◌+◌, Bool, true, false, ◌&&◌, ◌||◌, Option, none, some, List, [], ◌∷◌, ◌++◌, map,
  reverse, Text, text, ltb, leb, ◌==◌, if◌then◌else◌, length, take, contains,
}

abbrev pub max_k8s_name_len : ℕ
max_k8s_name_len = 63

-- unicode.ToLower: 0x212A is the Kelvin sign, 0x130 the capital I with a dot.
unfoldable pub to_lower : ℕ → ℕ
to_lower c =
    if leb b'A' c && leb c b'Z'
    then c + 32
    else if c == 0x212a
    then b'k'
    else if c == 0x130
    then b'i'
    else c

unfoldable pub is_alnum : ℕ → Bool
is_alnum c = leb b'a' c && leb c b'z' || leb b'0' c && leb c b'9'

-- ReplaceAllString of [^a-z0-9]+ by a dash; the flag says that a run has been replaced already.
unfoldable pub collapse : Bool → Text → Text
collapse in_run [] = []
collapse in_run (c ∷ s) =
    let kept = c ∷ collapse false s in
    let skipped = collapse true s in
    if is_alnum c then kept else if in_run then skipped else b'-' ∷ skipped

unfoldable pub trim_left : Text → Text
trim_left [] = []
trim_left (c ∷ s) = if c == b'-' then trim_left s else c ∷ s

unfoldable pub trim_right : Text → Text
unfolding trim_left
trim_right s = reverse (trim_left (reverse s))

pub clip : Text → Text
unfolding trim_right
clip out = if ltb max_k8s_name_len (length out) then trim_right (take max_k8s_name_len out) else out

-- `none` is the error that no valid character is left. The random name is for an empty input.
unfoldable pub sanitize_name : Text → Text → Option Text
unfolding clip
sanitize_name suffix [] = some (text "dink-" ++ suffix)
sanitize_name suffix (c ∷ input) =
    elim (clip (trim_right (trim_left (collapse false (map to_lower (c ∷ input)))))) [
      | [] ↦ none
      | d ∷ out ↦ some (d ∷ out)
    ]

-- What follows the last slash.
unfoldable pub after_last_slash : Text → Text
unfolding contains
after_last_slash [] = []
after_last_slash (c ∷ s) =
    let later = after_last_slash s in
    if contains s b'/' then later else if c == b'/' then s else c ∷ s

-- What stands before the first colon or at sign.
unfoldable pub before_tag : Text → Text
before_tag [] = []
before_tag (c ∷ s) = if c == b':' || c == b'@' then [] else c ∷ before_tag s

unfoldable pub image_base : Text → Text
unfolding after_last_slash before_tag
image_base image = before_tag (after_last_slash image)

-- The cleaned stem of a generated name.
unfoldable pub generated_stem : Text → Text
generated_stem image = elim (sanitize_name [] (text "dink-" ++ image_base image)) [
  | none ↦ text "dink"
  | some clean ↦ clean
]

-- `suffix` holds the six random hex digits.
unfoldable pub generated_name : Text → Text → Text
unfolding generated_stem
generated_name image suffix =
    let full : Text = generated_stem image ++ b'-' ∷ suffix in
    if ltb max_k8s_name_len (length full) then take max_k8s_name_len full else full
