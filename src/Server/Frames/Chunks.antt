-- ===== src/Server/Frames/Chunks.antt =====
-- The loop of writeMultiplexedChunk ends, and cuts the payload into chunks in order
-- (internal/server/containers.go).
use docker_in_kubernetes.Prelude.{
  ◌⊎◌, ℕ, zero, suc, ◌≤◌, ◌<◌, ◌≡◌, refl, ◌∙◌, inl, inr, Bool, true, false, some, List, [], ◌∷◌,
  ◌++◌, append_assoc, append-nil, arith, length, take, drop, length-take, length-drop,
  take-append-drop, All, Bool-cases, if◌then◌else◌,
}
use docker_in_kubernetes.Server.Frames.{header, chunk_size, write_chunks, max_chunk}

-- The chunks that a payload is cut into.
unfoldable pub split : ℕ → List ℕ → List (List ℕ)
split zero p = []
split (suc fuel) [] = []
split (suc fuel) (b ∷ bs) =
    take (chunk_size (b ∷ bs)) (b ∷ bs) ∷ split fuel (drop (chunk_size (b ∷ bs)) (b ∷ bs))

unfoldable pub concat : List (List ℕ) → List ℕ
concat [] = []
concat (c ∷ cs) = c ++ concat cs

-- Chunks on the wire, each behind its header.
unfoldable pub frames : ℕ → List (List ℕ) → List ℕ
frames stream [] = []
frames stream (c ∷ cs) = (header stream (length c) ++ c) ++ frames stream cs

abbrev pub IsChunk : List ℕ → Type 0
IsChunk c = (0 < length c) × (length c ≤ max_chunk)

length-chunk :
    (b : ℕ) (bs : List ℕ) → length (take (chunk_size (b ∷ bs)) (b ∷ bs)) ≡ chunk_size (b ∷ bs)
length-chunk b bs = ground (arith, length-take (chunk_size (b ∷ bs)) (b ∷ bs))

chunk_size-pos : (b : ℕ) (bs : List ℕ) → 0 < chunk_size (b ∷ bs)
chunk_size-pos b bs = ground arith

length-rest : (b : ℕ) (bs : List ℕ) → length (drop (chunk_size (b ∷ bs)) (b ∷ bs)) ≤ length bs
length-rest b bs = omega (arith, length-drop (chunk_size (b ∷ bs)) (b ∷ bs), chunk_size-pos b bs)

pub concat-split : (fuel : ℕ) (p : List ℕ) → length p < fuel → concat (split fuel p) ≡ p
unfolding concat split
concat-split zero p h = absurd (omega arith)
concat-split (suc fuel) [] h = refl
concat-split (suc fuel) (b ∷ bs) h =
    rw (concat-split fuel (drop (chunk_size (b ∷ bs)) (b ∷ bs)) (omega (arith, length-rest b bs)))
      (take-append-drop (chunk_size (b ∷ bs)) (b ∷ bs))

pub split-IsChunk : (fuel : ℕ) (p : List ℕ) → All IsChunk (split fuel p)
unfolding split
split-IsChunk zero p = tt
split-IsChunk (suc fuel) [] = tt
split-IsChunk (suc fuel) (b ∷ bs) = (
  (omega (arith, length-chunk b bs, chunk_size-pos b bs), ground (arith, length-chunk b bs)),
  split-IsChunk fuel (drop (chunk_size (b ∷ bs)) (b ∷ bs)),
)

pub write_chunks-frames :
    (fuel : ℕ) (sent : List ℕ) (stream : ℕ) (p : List ℕ)
    → length p < fuel
    → write_chunks (λ _ _. true) fuel sent stream p
      ≡ some (sent ++ frames stream (split fuel p), true)
unfolding write_chunks frames split
write_chunks-frames zero sent stream p h = absurd (omega arith)
write_chunks-frames (suc fuel) sent stream [] h = rw append-nil
write_chunks-frames (suc fuel) sent stream (b ∷ bs) h =
    let n : ℕ = chunk_size (b ∷ bs) in
    write_chunks-frames fuel ((sent ++ header stream n) ++ take n (b ∷ bs)) stream (drop n (b ∷ bs))
      (omega (arith, length-rest b bs))
    ∙ rw (length-chunk b bs) (simp append_assoc)

-- The Writes that send chunks: of each chunk its header, and then the chunk.
unfoldable pub writes : ℕ → List (List ℕ) → List (List ℕ)
writes stream [] = []
writes stream (c ∷ cs) = header stream (length c) ∷ c ∷ writes stream cs

-- Writes in order up to the first that the connection refuses: what was sent, and whether none was refused.
unfoldable pub send_all : (List ℕ → List ℕ → Bool) → List ℕ → List (List ℕ) → List ℕ × Bool
send_all accepts sent [] = (sent, true)
send_all accepts sent (w ∷ ws) =
    let rest = send_all accepts (sent ++ w) ws in if accepts sent w then rest else (sent, false)

-- With as many rounds as there are bytes, and one more, the loop returns, whatever the connection
-- accepts: it makes the Writes of the payload's chunks in order up to the first that is refused, and
-- succeeds if none is. What it sent is a prefix of the frames, and all of them if it succeeds.
pub write_chunks_total :
    (accepts : List ℕ → List ℕ → Bool) (fuel : ℕ) (sent : List ℕ) (stream : ℕ) (p : List ℕ)
    → length p < fuel
    → (r : List ℕ × Bool) × (rest : List ℕ) × (write_chunks accepts fuel sent stream p ≡ some r)
      × (r ≡ send_all accepts sent (writes stream (split fuel p)))
      × (r.0 ++ rest ≡ sent ++ frames stream (split fuel p))
      × ((r.1 ≡ false) ⊎ (rest ≡ []))
unfolding write_chunks frames split writes send_all
write_chunks_total accepts zero sent stream p h = absurd (omega arith)
write_chunks_total accepts (suc fuel) sent stream [] h =
    ((sent, true), [], refl, refl, refl, inr refl)
write_chunks_total accepts (suc fuel) sent stream (b ∷ bs) h =
    let n : ℕ = chunk_size (b ∷ bs) in
    let hdr : List ℕ = header stream n in
    let c : List ℕ = take n (b ∷ bs) in
    let later : List ℕ = frames stream (split fuel (drop n (b ∷ bs))) in
    let (r, rest, e, as_sent, whole, done) =
      write_chunks_total accepts fuel ((sent ++ hdr) ++ c) stream (drop n (b ∷ bs))
        (omega (arith, length-rest b bs)) in
    elim (Bool-cases (accepts sent hdr)) [
      | inr refused ↦ (
        (sent, false),
        (hdr ++ c) ++ later,
        rw (refused, write_chunks),
        rw (length-chunk b bs) (rw (refused, send_all)),
        rw (length-chunk b bs),
        inl refl,
      )
      | inl taken ↦ elim (Bool-cases (accepts (sent ++ hdr) c)) [
        | inr refused ↦ (
          (sent ++ hdr, false),
          c ++ later,
          rw (taken, write_chunks, refused),
          rw (length-chunk b bs) (rw (taken, send_all, refused)),
          rw (length-chunk b bs) (simp append_assoc),
          inl refl,
        )
        | inl taken' ↦ (
          r,
          rest,
          rw (taken, write_chunks, taken') e,
          as_sent ∙ rw (length-chunk b bs) (rw (taken, send_all, taken')),
          whole ∙ rw (length-chunk b bs) (simp append_assoc),
          done,
        )
      ]
    ]
