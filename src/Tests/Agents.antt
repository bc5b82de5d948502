-- ===== src/Tests/Agents.antt =====
-- Tests of the agent steps.
use mathlib.Core.List.{flat_map}
use temporal_agent_sandbox.Prelude.{
  Text, codes, pos, some, true, [], ◌∷◌, ◌++◌, ◌≡◌, ◌↔◌, refl, All, arith,
}
use temporal_agent_sandbox.Prelude.Json.{read_literal, dumps_str}
use temporal_agent_sandbox.Prelude.Json.Literal.{units, IsBasic, read_literal-dumps_str}
use temporal_agent_sandbox.Prelude.Methods.{lower}
use temporal_agent_sandbox.Contracts.{SummarizeArgs}
use temporal_agent_sandbox.Agents.Codegen.{directives, generate_program}
use temporal_agent_sandbox.Agents.Codegen.Embedding.{
  normal_head, normal_tail, generate_program-normal, generate_program_embeds, encodable,
  program_can_encode_iff,
}
use temporal_agent_sandbox.Agents.Pipeline.{plan, parse_directive, generate_code, summarize}
use temporal_agent_sandbox.Agents.Pipeline.Directive.{
  Choice, parse_directive-Choice, generate_code_total,
}
use temporal_agent_sandbox.Agents.Pipeline.Summary.{NoNewline, summarize-NoNewline}
use temporal_agent_sandbox.Tests.Data.{ascii_only, normal_plan, outcome}

-- a task that tries to break out of the string literal
abbrev quotes : Text
quotes = codes "\"; import os #\n"

generate_program_embeds_example :
    (program : Text) × (generate_program (codes "normal") quotes ≡ some program)
    × (rest : Text) × (program ≡ normal_head ++ rest)
    × (read_literal rest ≡ some (flat_map units quotes, normal_tail))
generate_program_embeds_example = generate_program_embeds quotes

-- a task with a character beyond the basic plane
abbrev emoji : Text
emoji = 0x1f600 ∷ []

emoji_is_text : encodable emoji ≡ true
unfolding encodable
emoji_is_text = refl

program_can_encode_iff_example : (encodable (flat_map units emoji) ≡ true) ↔ All IsBasic emoji
program_can_encode_iff_example =
    program_can_encode_iff emoji _ (dumps_str emoji ++ normal_tail) (flat_map units emoji)
      normal_tail emoji_is_text (generate_program-normal emoji) refl
      (read_literal-dumps_str emoji normal_tail)

quotes-Choice :
    Choice
      (lower ascii_only (codes "please [OOM] now"))
      (parse_directive ascii_only (codes "please [OOM] now"))
      directives
quotes-Choice = parse_directive-Choice ascii_only (codes "please [OOM] now")

net_generates :
    (program : Text) × (generate_code (plan ascii_only (codes "directive:net")) ≡ some program)
net_generates = generate_code_total ascii_only (codes "directive:net")

abbrev exit_three : SummarizeArgs
exit_three = record { plan = normal_plan; sandbox = outcome (pos 3) }

one_line : NoNewline (codes "runsc") × NoNewline (codes "normal")
unfolding codes
one_line = omega arith

exit_three-NoNewline : NoNewline (summarize exit_three)
exit_three-NoNewline = summarize-NoNewline exit_three one_line.1 one_line.0
