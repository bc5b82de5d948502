-- ===== src/Agents/Codegen/Embedding.antt =====
-- How the task gets into the program of the `normal` directive.
use mathlib.Core.List.{flat_map, append_cancel_left}
use temporal_agent_sandbox.Prelude.{
  ℕ, Text, codes, ◌==◌, some, [], ◌∷◌, ◌++◌, ◌≡◌, refl, All, ◌↔◌, ap, ==_refl, Bool, true, not, leb,
  ltb, ◌&&◌, arith,
}
use temporal_agent_sandbox.Prelude.Json.{dumps_str, read_literal}
use temporal_agent_sandbox.Prelude.Json.Literal.{units, read_literal-dumps_str, IsBasic}
use temporal_agent_sandbox.Agents.Codegen.{generate_program, format, normal_program}

-- The program in front of the literal and behind it; neither depends on the task.
abbrev pub normal_head : Text
normal_head = codes "import json, hashlib\nTASK = "

abbrev pub normal_tail : Text
normal_tail =
    codes
      "\nresult = {\n    \"task_len\": len(TASK),\n    \"word_count\": len(TASK.split()),\n    \"sha256\": hashlib.sha256(TASK.encode()).hexdigest(),\n}\nprint(json.dumps(result))\n"

pub format-normal_program :
    (value : Text) → format normal_program value ≡ some (normal_head ++ (value ++ normal_tail))
unfolding format normal_program codes ◌==◌
format-normal_program value = refl

pub generate_program-normal :
    (task : Text)
    → generate_program (codes "normal") task ≡ some (normal_head ++ (dumps_str task ++ normal_tail))
unfolding generate_program
generate_program-normal task =
    rw (==_refl (codes "normal")) (format-normal_program (dumps_str task))

-- For every task the normal program exists; behind its fixed head stands a string literal that
-- ends exactly before the fixed tail, so the task cannot break out of the literal. The literal's
-- value is the task, with a character beyond the basic plane as its two surrogates.
pub generate_program_embeds :
    (task : Text)
    → (program : Text) × (generate_program (codes "normal") task ≡ some program)
      × (rest : Text) × (program ≡ normal_head ++ rest)
      × (read_literal rest ≡ some (flat_map units task, normal_tail))
generate_program_embeds task = (
  normal_head ++ (dumps_str task ++ normal_tail),
  generate_program-normal task,
  dumps_str task ++ normal_tail,
  refl,
  read_literal-dumps_str task normal_tail,
)

-- A string that `str.encode()` accepts has no surrogate.
abbrev pub is_surrogate : ℕ → Bool
is_surrogate c = leb 0xd800 c && leb c 0xdfff

unfoldable pub encodable : Text → Bool
encodable [] = true
encodable (c ∷ s) = not (is_surrogate c) && encodable s

encodable-units :
    (c : ℕ) (s : Text)
    → encodable (units c ++ s) ≡ (ltb c 0x10000 && not (is_surrogate c) && encodable s)
unfolding encodable
encodable-units c s = ground arith

encodable_iff :
    (t : Text) → encodable t ≡ true → (encodable (flat_map units t) ≡ true) ↔ All IsBasic t
unfolding flat_map encodable
encodable_iff [] h = (λ _. tt, λ _. refl)
encodable_iff (c ∷ t) h =
    let whole = encodable-units c (flat_map units t) in
    let more : (encodable t ≡ true) × (not (is_surrogate c) ≡ true) = ground arith in
    let ih = encodable_iff t more.0 in
    (λ e. (ground arith, ih.0 (ground arith)), λ (b, bs). ground (arith, ih.1 bs))

-- The normal program computes `TASK.encode()`, and for a task that a request can carry (one with
-- no surrogate) that succeeds exactly when the task has no character beyond the basic plane.
pub program_can_encode_iff :
    (task program rest value tail : Text)
    → encodable task ≡ true
    → generate_program (codes "normal") task ≡ some program
    → program ≡ normal_head ++ rest
    → read_literal rest ≡ some (value, tail)
    → (encodable value ≡ true) ↔ All IsBasic task
program_can_encode_iff task program rest value tail h made split read =
    let same : rest ≡ dumps_str task ++ normal_tail =
      append_cancel_left normal_head rest (dumps_str task ++ normal_tail)
        (cc (generate_program-normal task)) in
    let parsed : value ≡ flat_map units task =
      cc (read_literal-dumps_str task normal_tail, ap read_literal same) in
    rw parsed (encodable_iff task h)
