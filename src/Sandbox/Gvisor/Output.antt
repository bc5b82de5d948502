-- ===== src/Sandbox/Gvisor/Output.antt =====
-- `_read_capped`: a pipe is drained, and only the tail of what it held is kept. A pipe is the list
-- of what its reads return; an empty read is the end of the file.
pub mod Tail
use temporal_agent_sandbox.Prelude.{
  ℕ, ◌+◌, ◌-◌, Option, none, some, Bool, false, List, [], ◌∷◌, ◌++◌, length, drop, ltb,
  if◌then◌else◌,
}
use temporal_agent_sandbox.Prelude.Utf8.{Bytes}

-- one turn of the loop on the buffer: `buf += chunk`, and the front cut off
pub push_chunk : ℕ → Bytes → Bytes → Bytes
push_chunk limit buf chunk =
    let grown = buf ++ chunk in
    if ltb limit (length grown) then drop (length grown - limit) grown else grown

pub drain : ℕ → Bytes → ℕ → List Bytes → Bytes × Bool
unfolding push_chunk
drain limit buf total [] = (buf, ltb limit total)
drain limit buf total ([] ∷ _) = (buf, ltb limit total)
drain limit buf total ((b ∷ chunk) ∷ chunks) =
    drain limit (push_chunk limit buf (b ∷ chunk)) (total + length (b ∷ chunk)) chunks

unfoldable pub read_capped : Option (List Bytes) → ℕ → Bytes × Bool
unfolding drain
read_capped none limit = ([], false)
read_capped (some chunks) limit = drain limit [] 0 chunks
