-- ===== src/Server/Frames.antt =====
-- internal/server/containers.go: framedWriter and writeMultiplexedChunk, Docker's framing of stdout
-- and stderr on one connection. Bytes are numbers. `accepts sent bytes` says whether the connection,
-- having sent `sent`, takes a Write of `bytes`; of a Write that fails nothing is counted as sent.
pub mod Chunks
pub mod Demux
use docker_in_kubernetes.Prelude.{
  ℕ, zero, suc, ◌+◌, ◌/◌, ◌%◌, ◌^◌, Bool, true, false, Option, none, some, List, [], ◌∷◌, ◌++◌,
  length, take, drop, ltb, if◌then◌else◌,
}

abbrev pub max_chunk : ℕ
max_chunk = 65536

-- binary.BigEndian.PutUint32 of a uint32.
unfoldable pub put_uint32 : ℕ → List ℕ
put_uint32 n = (n / 16777216 % 256) ∷ (n / 65536 % 256) ∷ (n / 256 % 256) ∷ (n % 256) ∷ []

unfoldable pub header : ℕ → ℕ → List ℕ
header stream n = stream ∷ 0 ∷ 0 ∷ 0 ∷ put_uint32 (n % 2 ^ 32)

-- The length of the next chunk.
abbrev pub chunk_size : List ℕ → ℕ
chunk_size chunks = if ltb max_chunk (length chunks) then max_chunk else length chunks

module _ (accepts : List ℕ → List ℕ → Bool) where
  -- The loop of writeMultiplexedChunk, on fuel: what was sent, and whether every Write succeeded.
  unfoldable pub write_chunks : ℕ → List ℕ → ℕ → List ℕ → Option (List ℕ × Bool)
  write_chunks zero sent stream chunks = none
  write_chunks (suc fuel) sent stream [] = some (sent, true)
  write_chunks (suc fuel) sent stream (b ∷ bs) =
      let n : ℕ = chunk_size (b ∷ bs) in
      let hdr : List ℕ = header stream n in
      let rest = write_chunks fuel ((sent ++ hdr) ++ take n (b ∷ bs)) stream (drop n (b ∷ bs)) in
      if accepts sent hdr
      then (if accepts (sent ++ hdr) (take n (b ∷ bs)) then rest else some (sent ++ hdr, false))
      else some (sent, false)

  -- Method Write of framedWriter, under its mutex: what was sent, and the count that it returns,
  -- `none` for an error. A round sends at least one byte, so the fuel is enough.
  unfoldable pub framed_write : List ℕ → ℕ → List ℕ → Option (List ℕ × Option ℕ)
  framed_write sent stream p = elim (write_chunks (suc (length p)) sent stream p) [
    | none ↦ none
    | some (sent', good) ↦ some (sent', (if good then some (length p) else none))
  ]
