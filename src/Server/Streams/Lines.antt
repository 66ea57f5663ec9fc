-- ===== src/Server/Streams/Lines.antt =====
-- internal/server/containers.go: the copy of a log line by line.
use docker_in_kubernetes.Prelude.{
  ℕ, zero, suc, ◌≤◌, ◌<◌, ◌≡◌, refl, ◌∙◌, inl, inr, true, false, some, List, [], ◌∷◌, ◌++◌,
  append-nil, arith, length, if◌then◌else◌, Bool-cases, ◌==◌,
}
use docker_in_kubernetes.Server.Frames.Chunks.{concat, frames, split, write_chunks-frames}
use docker_in_kubernetes.Server.Frames.Demux.{
  demux, demux-write_all, write_all, write_rounds, written,
}
use docker_in_kubernetes.Server.Streams.Sessions.{framed_write_lem}
use docker_in_kubernetes.Server.Streams.{read_bytes, copy_lines}

-- The lines of a log, each with its end.
unfoldable pub lines : ℕ → List ℕ → List (List ℕ)
unfolding read_bytes
lines zero log = []
lines (suc fuel) log =
    let (line, rest, found) = read_bytes log in
    let later = lines fuel rest in
    elim line [ [] ↦ [] | c ∷ cs ↦ (c ∷ cs) ∷ (if found then later else []) ]

unfoldable pub to_stdout : List (List ℕ) → List (ℕ × List ℕ)
to_stdout [] = []
to_stdout (l ∷ ls) = (1, l) ∷ to_stdout ls

read_bytes_lem :
    (log : List ℕ)
    → ((read_bytes log).0 ++ (read_bytes log).1 ≡ log)
      × (((read_bytes log).2 ≡ false) → (read_bytes log).1 ≡ [])
unfolding read_bytes
read_bytes_lem [] = (refl, λ h. refl)
read_bytes_lem (c ∷ s) =
    let (e, f) = read_bytes_lem s in (ground (arith, e), λ h. ground (arith, f))

read_bytes-length : (c : ℕ) (s : List ℕ) → length (read_bytes (c ∷ s)).1 ≤ length s
unfolding read_bytes
read_bytes-length c [] = ground arith
read_bytes-length c (d ∷ s) = ground (arith, read_bytes-length d s)

read_bytes-ne : (c : ℕ) (s : List ℕ) → (l : List ℕ) × ((read_bytes (c ∷ s)).0 ≡ c ∷ l)
unfolding read_bytes
read_bytes-ne c s = elim (Bool-cases (c == b'\n')) [
  | inl e ↦ ([], ground (arith, e))
  | inr e ↦ ((read_bytes s).0, ground (arith, e))
]

concat-lines : (fuel : ℕ) (log : List ℕ) → length log < fuel → concat (lines fuel log) ≡ log
unfolding lines concat
concat-lines zero log h = absurd (omega arith)
concat-lines (suc fuel) [] h = unfold read_bytes in refl
concat-lines (suc fuel) (c ∷ s) h =
    let (l, line) = read_bytes-ne c s in
    let (whole, ended) = read_bytes_lem (c ∷ s) in
    let shorter = read_bytes-length c s in
    let right : (c ∷ l) ++ [] ≡ c ∷ l = append-nil (c ∷ l) in
    let later = concat-lines fuel (read_bytes (c ∷ s)).1 (omega (arith, shorter)) in
    elim (Bool-cases (read_bytes (c ∷ s)).2) [
      | inl found ↦ ground (arith, line, whole, found, later)
      | inr last ↦ ground (arith, line, whole, last, ended last, right)
    ]

copy_lines-write_all :
    (fuel : ℕ) (sent log : List ℕ)
    → length log < fuel
    → copy_lines (λ _ _. true) fuel sent log ≡ write_all sent (to_stdout (lines fuel log))
unfolding copy_lines lines to_stdout write_all
copy_lines-write_all zero sent log h = absurd (omega arith)
copy_lines-write_all (suc fuel) sent [] h = unfold read_bytes in refl
copy_lines-write_all (suc fuel) sent (c ∷ s) h =
    let (l, line) = read_bytes-ne c s in
    let shorter = read_bytes-length c s in
    let n : ℕ = suc (length (c ∷ l)) in
    let next : List ℕ = sent ++ frames 1 (split n (c ∷ l)) in
    let later = copy_lines-write_all fuel next (read_bytes (c ∷ s)).1 (omega (arith, shorter)) in
    let step = write_chunks-frames n sent 1 (c ∷ l) (omega arith) in
    let step' = framed_write_lem sent 1 (c ∷ l) in
    elim (Bool-cases (read_bytes (c ∷ s)).2) [
      | inl found ↦ ground (arith, line, found, later, step, step')
      | inr last ↦ ground (arith, line, last, step, step')
    ]

written-to_stdout :
    (wanted : ℕ) (ls : List (List ℕ))
    → written wanted (to_stdout ls) ≡ (if 1 == wanted then concat ls else [])
unfolding to_stdout concat
written-to_stdout wanted [] = ground arith
written-to_stdout wanted (l ∷ ls) = ground (arith, written-to_stdout wanted ls)

-- On a connection that takes every Write, a log that is copied line by line ends, and the
-- client reads it back whole: the frames hold the bytes of the log on stdout, in order, and
-- nothing on any other stream.
pub demux-copy_lines :
    (wanted : ℕ) (log : List ℕ)
    → (bytes : List ℕ) × (rounds : ℕ) × (copy_lines (λ _ _. true) (suc (length log)) [] log
        ≡ some bytes)
      × (demux rounds wanted bytes ≡ some (if 1 == wanted then log else []))
demux-copy_lines wanted log =
    let fuel : ℕ = suc (length log) in
    let ws : List (ℕ × List ℕ) = to_stdout (lines fuel log) in
    let (bytes, sent, out) = demux-write_all wanted ws in
    let whole = concat-lines fuel log (omega arith) in
    (
      bytes,
      write_rounds ws,
      copy_lines-write_all fuel [] log (omega arith) ∙ sent,
      out ∙ ground (arith, written-to_stdout wanted (lines fuel log), whole),
    )
