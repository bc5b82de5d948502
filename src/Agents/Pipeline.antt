-- ===== src/Agents/Pipeline.antt =====
-- app/agents/pipeline.py: the pure transforms behind the three agent activities.
pub mod Directive
pub mod Summary
use temporal_agent_sandbox.Prelude.{
  Text, codes, ◌==◌, ◌is_in◌, Option, none, some, List, [], ◌∷◌, ◌++◌, Bool, ◌||◌, str_nat, str_int,
  take, if◌then◌else◌,
}
use temporal_agent_sandbox.Prelude.Methods.{Unicode, lower, strip, replace_char}
use temporal_agent_sandbox.Contracts.{Plan, SummarizeArgs, is_ok, failure_reason}
use temporal_agent_sandbox.Agents.Codegen.{directives, generate_program}

-- the test of the loop: `f"[{d}]" in low or f"directive:{d}" in low`
unfoldable pub names : Text → Text → Bool
names low d = (codes "[" ++ (d ++ codes "]")) is_in low || (codes "directive:" ++ d) is_in low

-- the loop over `DIRECTIVES`
unfoldable pub find_directive : Text → List Text → Text
find_directive low [] = codes "normal"
find_directive low (d ∷ ds) =
    let rest = find_directive low ds in
    if d == codes "normal" then rest else if names low d then d else rest

unfoldable pub parse_directive : Unicode → Text → Text
parse_directive u task = find_directive (lower u task) directives

unfoldable pub plan : Unicode → Text → Plan
plan u task =
    let directive = parse_directive u task in
    record {
      task = task;
      directive = directive;
      steps =
          codes "analyze task"
          ∷ (codes "emit '" ++ (directive ++ codes "' program"))
          ∷ codes "execute in sandbox"
          ∷ codes "summarize result"
          ∷ [];
    }

-- `none` is the exception of `generate_program`
unfoldable pub generate_code : Plan → Option Text
generate_code p = generate_program p.directive p.task

-- `str(x)` of an optional text
abbrev pub str_option : Option Text → Text
str_option none = codes "None"
str_option (some s) = s

-- `s.strip().replace("\n", " ")[:500]`
pub excerpt : Text → Text
excerpt s = take 500 (replace_char 10 32 (strip s))

unfoldable pub summarize : SummarizeArgs → Text
unfolding excerpt
summarize args =
    let s = args.sandbox in
    let directive = args.plan.directive in
    if is_ok s
    then codes "Run completed (directive="
      ++ (directive
          ++ (codes ", exit=0, "
              ++ (str_nat s.wall_ms
                  ++ (codes "ms via "
                      ++ (s.runtime ++ (codes "). Output: " ++ excerpt s.stdout_tail))))))
    else codes "Run failed (directive="
      ++ (directive
          ++ (codes ", reason="
              ++ (str_option (failure_reason s)
                  ++ (codes ", exit="
                      ++ (str_int s.exit_code
                          ++ (codes ", "
                              ++ (str_nat s.wall_ms
                                  ++ (codes "ms via "
                                      ++ (s.runtime
                                          ++ (codes "). Stderr: " ++ excerpt s.stderr_tail))))))))))
