-- ===== src/Server/Frames/Demux.antt =====
-- What a Docker client reads from the frames (internal/server/containers.go; the reader is
-- stdcopy's, written here as the description of the format).
use docker_in_kubernetes.Prelude.{
  ℕ, zero, suc, ◌+◌, ◌*◌, ◌/◌, ◌%◌, ◌^◌, ◌≤◌, ◌≡◌, refl, ◌∙◌, Bool, true, Option, none, some, List,
  [], ◌∷◌, ◌++◌, append_assoc, append-nil, arith, length, length-append, take, drop, All, ◌==◌, leb,
  if◌then◌else◌,
}
use docker_in_kubernetes.Server.Frames.{header, put_uint32, framed_write, max_chunk}
use docker_in_kubernetes.Server.Frames.Chunks.{
  split, concat, frames, IsChunk, concat-split, split-IsChunk, write_chunks-frames,
}

keep : Bool → List ℕ → Option (List ℕ) → Option (List ℕ)
keep wanted c none = none
keep wanted c (some p) = some (if wanted then c ++ p else p)

keep-some :
    (s wanted : ℕ) (c d p : List ℕ)
    → keep (s == wanted) c (some (if s == wanted then d ++ p else p))
      ≡ some (if s == wanted then (c ++ d) ++ p else p)
unfolding keep
keep-some s wanted c d p = ground (arith, append_assoc c d p)

-- The reader keeps the payload of the frames of one stream, on fuel; `none` for bytes that are no
-- frames.
unfoldable pub demux : ℕ → ℕ → List ℕ → Option (List ℕ)
unfolding keep
demux zero wanted bytes = none
demux (suc fuel) wanted [] = some []
demux (suc fuel) wanted (s ∷ _ ∷ _ ∷ _ ∷ a ∷ b ∷ c ∷ d ∷ rest) =
    let n : ℕ = ((a * 256 + b) * 256 + c) * 256 + d in
    let later = demux fuel wanted (drop n rest) in
    if leb n (length rest) then keep (s == wanted) (take n rest) later else none
demux (suc fuel) wanted _ = none

take_prefix {ℓ} : {A : Type ℓ} (xs ys : List A) → take (length xs) (xs ++ ys) ≡ xs
take_prefix [] ys = refl
take_prefix (x ∷ xs) ys = rw (take_prefix xs ys)

drop_prefix {ℓ} : {A : Type ℓ} (xs ys : List A) → drop (length xs) (xs ++ ys) ≡ ys
drop_prefix [] ys = refl
drop_prefix (x ∷ xs) ys = drop_prefix xs ys

uint32_digits :
    (n : ℕ)
    → n ≤ max_chunk
    → (((n % 2 ^ 32 / 16777216 % 256) * 256 + n % 2 ^ 32 / 65536 % 256) * 256
            + n % 2 ^ 32 / 256 % 256)
          * 256
        + n % 2 ^ 32 % 256
      ≡ n
uint32_digits n h = omega arith

demux-frame :
    (fuel wanted stream : ℕ) (c rest : List ℕ)
    → length c ≤ max_chunk
    → demux (suc fuel) wanted ((header stream (length c) ++ c) ++ rest)
      ≡ keep (stream == wanted) c (demux fuel wanted rest)
unfolding demux header put_uint32
demux-frame fuel wanted stream c rest h =
    rw (uint32_digits (length c) h, take_prefix c rest, drop_prefix c rest)
      (ground (arith, length-append c rest))

-- The payloads that were written to one stream, in order.
abbrev pub written : ℕ → List (ℕ × List ℕ) → List ℕ
written wanted [] = []
written wanted ((s, p) ∷ ws) = if s == wanted then p ++ written wanted ws else written wanted ws

-- One round of the reader for each chunk.
abbrev pub rounds : List (List ℕ) → ℕ → ℕ
rounds [] fuel = fuel
rounds (c ∷ cs) fuel = suc (rounds cs fuel)

demux-frames :
    (fuel wanted stream : ℕ) (cs : List (List ℕ)) (rest p : List ℕ)
    → All IsChunk cs
    → demux fuel wanted rest ≡ some p
    → demux (rounds cs fuel) wanted (frames stream cs ++ rest)
      ≡ some (if stream == wanted then concat cs ++ p else p)
unfolding frames concat
demux-frames fuel wanted stream [] rest p chunks e = ground arith
demux-frames fuel wanted stream (c ∷ cs) rest p chunks e =
    rw
      (
        append_assoc (header stream (length c) ++ c) (frames stream cs) rest,
        demux-frame (rounds cs fuel) wanted stream c (frames stream cs ++ rest) chunks.0.1,
        demux-frames fuel wanted stream cs rest p chunks.1 e,
      )
      (keep-some stream wanted c (concat cs) p)

-- The wire after a list of writes to the two streams, each made under the mutex.
unfoldable pub write_all : List ℕ → List (ℕ × List ℕ) → Option (List ℕ)
write_all sent [] = some sent
write_all sent ((s, p) ∷ ws) = elim (framed_write (λ _ _. true) sent s p) [
  | none ↦ none
  | some (sent', count) ↦ write_all sent' ws
]

abbrev pub write_rounds : List (ℕ × List ℕ) → ℕ
write_rounds [] = 1
write_rounds ((s, p) ∷ ws) = rounds (split (suc (length p)) p) (write_rounds ws)

unfoldable pub wire : List (ℕ × List ℕ) → List ℕ
wire [] = []
wire ((s, p) ∷ ws) = frames s (split (suc (length p)) p) ++ wire ws

write_all-wire :
    (sent : List ℕ) (ws : List (ℕ × List ℕ)) → write_all sent ws ≡ some (sent ++ wire ws)
unfolding write_all wire framed_write
write_all-wire sent [] = rw append-nil
write_all-wire sent ((s, p) ∷ ws) =
    rw (write_chunks-frames (suc (length p)) sent s p (omega arith), write_all)
      (write_all-wire (sent ++ frames s (split (suc (length p)) p)) ws ∙ rw append_assoc)

demux-wire :
    (wanted : ℕ) (ws : List (ℕ × List ℕ))
    → demux (write_rounds ws) wanted (wire ws) ≡ some (written wanted ws)
unfolding wire
demux-wire wanted [] = unfold demux in refl
demux-wire wanted ((s, p) ∷ ws) = rw (
  demux-frames (write_rounds ws) wanted s (split (suc (length p)) p) (wire ws) (written wanted ws)
      (split-IsChunk (suc (length p)) p) (demux-wire wanted ws),
  concat-split (suc (length p)) p (omega arith),
)

-- However the writes to stdout and stderr are interleaved, and however long they are, every one of
-- them goes out and a reader of the frames gets for each stream the bytes written to it, in order.
pub demux-write_all :
    (wanted : ℕ) (ws : List (ℕ × List ℕ))
    → (bytes : List ℕ) × (write_all [] ws ≡ some bytes)
      × (demux (write_rounds ws) wanted bytes ≡ some (written wanted ws))
demux-write_all wanted ws = (wire ws, write_all-wire [] ws, demux-wire wanted ws)
