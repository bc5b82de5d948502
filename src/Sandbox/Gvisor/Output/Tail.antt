-- ===== src/Sandbox/Gvisor/Output/Tail.antt =====
-- `read_capped` against its description: the last bytes of the whole output.
use temporal_agent_sandbox.Prelude.{
  ℕ, ◌+◌, ◌-◌, ◌≤◌, some, Bool, List, [], ◌∷◌, ◌++◌, length, drop, ltb, ◌≡◌, arith, ap, ◌∙◌, sym,
  length-append, length-drop, drop-append, drop-drop, drop-nil, take, take-append-drop, min,
  Bool-cases, inl, inr,
}
use mathlib.Core.List.{append_assoc, append-nil}
use temporal_agent_sandbox.Prelude.Utf8.{Bytes}
use temporal_agent_sandbox.Sandbox.Gvisor.Output.{push_chunk, drain, read_capped}

-- The output of a pipe: the reads up to the first empty one, joined.
pub output : List Bytes → Bytes
output [] = []
output ([] ∷ _) = []
output ((b ∷ chunk) ∷ chunks) = (b ∷ chunk) ++ output chunks

-- The last `limit` bytes, or all if there are fewer.
pub tail_of : ℕ → Bytes → Bytes
tail_of limit s = drop (length s - limit) s

push_chunk-eq-tail_of :
    (limit : ℕ) (buf chunk : Bytes) → push_chunk limit buf chunk ≡ tail_of limit (buf ++ chunk)
unfolding push_chunk tail_of
push_chunk-eq-tail_of limit buf chunk = elim (Bool-cases (ltb limit (length (buf ++ chunk)))) [
  | inl long ↦ rw long
  | inr short ↦
      let none_cut : length (buf ++ chunk) - limit ≡ 0 = ground arith in rw (short, none_cut)
]

-- The tail of a tail with more behind it is the tail of the whole.
tail_of-append :
    (limit : ℕ) (s t : Bytes) → tail_of limit (tail_of limit s ++ t) ≡ tail_of limit (s ++ t)
unfolding tail_of
tail_of-append limit s t =
    let cut : ℕ = length s - limit in
    let whole : drop cut (s ++ t) ≡ drop cut s ++ t = drop-append cut s t (omega arith) in
    let rest : cut + (length (drop cut (s ++ t)) - limit) ≡ length (s ++ t) - limit =
      omega (arith, length-drop cut (s ++ t), length-append s t) in
    ap (λ r. drop (length r - limit) r) (sym whole)
    ∙ drop-drop (length (drop cut (s ++ t)) - limit) cut (s ++ t)
    ∙ ap (λ k. drop k (s ++ t)) rest

abbrev Kept : ℕ → Bytes → Bytes × Bool
Kept limit s = (tail_of limit s, ltb limit (length s))

drain_lem :
    (limit : ℕ) (s : Bytes) (chunks : List Bytes)
    → drain limit (tail_of limit s) (length s) chunks ≡ Kept limit (s ++ output chunks)
unfolding drain output
drain_lem limit s [] = ap (Kept limit) (sym (append-nil s))
drain_lem limit s ([] ∷ _) = ap (Kept limit) (sym (append-nil s))
drain_lem limit s ((b ∷ chunk) ∷ chunks) =
    rw (push_chunk-eq-tail_of, tail_of-append limit s (b ∷ chunk), ← length-append s (b ∷ chunk))
      (drain_lem limit (s ++ b ∷ chunk) chunks
        ∙ ap (Kept limit) (append_assoc s (b ∷ chunk) (output chunks)))

tail_of-nil : (limit : ℕ) → tail_of limit [] ≡ []
unfolding tail_of
tail_of-nil limit = drop-nil (0 - limit)

-- A pipe that is read in any chunks yields the last `limit` bytes of its output, and is called
-- truncated exactly when the output is longer than that.
pub read_capped_lem :
    (limit : ℕ) (chunks : List Bytes)
    → read_capped (some chunks) limit
      ≡ (tail_of limit (output chunks), ltb limit (length (output chunks)))
unfolding read_capped
read_capped_lem limit chunks =
    ap (λ buf. drain limit buf 0 chunks) (sym (tail_of-nil limit)) ∙ drain_lem limit [] chunks

-- The tail is a suffix of the output, no longer than `limit` and all of it if it fits.
pub tail_of_bounds :
    (limit : ℕ) (s : Bytes)
    → ((front : Bytes) × (s ≡ front ++ tail_of limit s))
      × (length (tail_of limit s) ≡ min limit (length s))
unfolding tail_of
tail_of_bounds limit s = (
  (take (length s - limit) s, sym (take-append-drop (length s - limit) s)),
  omega (arith, length-drop (length s - limit) s),
)

-- The buffer of the loop never holds more than `limit` bytes and one read on top of them.
pub push_chunk_bounded :
    (limit : ℕ) (buf chunk : Bytes)
    → length buf ≤ limit
    → (length (buf ++ chunk) ≤ limit + length chunk) × (length (push_chunk limit buf chunk) ≤ limit)
push_chunk_bounded limit buf chunk h =
    rw push_chunk-eq-tail_of
      (omega (arith, length-append buf chunk, (tail_of_bounds limit (buf ++ chunk)).1))
