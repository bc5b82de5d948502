-- ===== src/Agents/Pipeline/Summary.antt =====
-- What the summary of a run tells, and that it stays on one line.
use temporal_agent_sandbox.Prelude.{
  ℕ, zero, suc, ◌≤◌, Text, codes, starts_with, [], ◌∷◌, ◌++◌, ◌≡◌, ◌≢◌, All, All-append, length,
  length-take, take, arith, pos, negsuc, ℤ, str_nat, str_int, str_nat-IsDigit, IsDigit, Bool-cases,
  inl, inr,
}
use temporal_agent_sandbox.Prelude.Methods.{strip, replace_char}
use temporal_agent_sandbox.Contracts.{SummarizeArgs, is_ok, failure_reason, SandboxResult}
use temporal_agent_sandbox.Agents.Pipeline.{excerpt, str_option, summarize}

-- The first words of the summary are the verdict of `ok`.
pub summarize_verdict :
    (args : SummarizeArgs)
    → starts_with (summarize args) (codes "Run completed") ≡ is_ok args.sandbox
unfolding summarize starts_with codes
summarize_verdict args = ground arith

abbrev pub NoNewline : Text → Type 0
NoNewline = All (λ c. c ≢ 10)

NoNewline-take : (n : ℕ) (s : Text) → NoNewline s → NoNewline (take n s)
NoNewline-take zero s h = tt
NoNewline-take (suc n) [] h = tt
NoNewline-take (suc n) (c ∷ s) (p, h) = (p, NoNewline-take n s h)

NoNewline-replace_char : (s : Text) → NoNewline (replace_char 10 32 s)
unfolding replace_char
NoNewline-replace_char [] = tt
NoNewline-replace_char (c ∷ s) = ground (arith, NoNewline-replace_char s)

excerpt_bounded : (s : Text) → (length (excerpt s) ≤ 500) × NoNewline (excerpt s)
unfolding excerpt
excerpt_bounded s = (
  omega (arith, length-take 500 (replace_char 10 32 (strip s))),
  NoNewline-take 500 _ (NoNewline-replace_char (strip s)),
)

NoNewline-digits : (s : Text) → All IsDigit s → NoNewline s
NoNewline-digits [] h = tt
NoNewline-digits (c ∷ s) (d, h) = (λ e. omega arith, NoNewline-digits s h)

NoNewline-str_int : (i : ℤ) → NoNewline (str_int i)
unfolding str_int
NoNewline-str_int (pos n) = NoNewline-digits _ (str_nat-IsDigit n)
NoNewline-str_int (negsuc n) = (λ e. omega arith, NoNewline-digits _ (str_nat-IsDigit (suc n)))

join : (s t : Text) → NoNewline s → NoNewline t → NoNewline (s ++ t)
join s t h k = All-append (λ c. c ≢ 10) s t h k

NoNewline-reason : (r : SandboxResult) → NoNewline (str_option (failure_reason r))
unfolding failure_reason codes
NoNewline-reason r = elim (Bool-cases (is_ok r)) [
  | inl ok ↦ rw ok (omega arith)
  | inr bad ↦ elim (Bool-cases r.wall_clock_exceeded) [
    | inl late ↦ rw (bad, late) (omega arith)
    | inr in_time ↦ elim (Bool-cases r.oom_killed) [
      | inl killed ↦ rw (bad, in_time, killed) (omega arith)
      | inr alive ↦
          rw (bad, in_time, alive)
            (join (codes "nonzero_exit:") _ (omega arith) (NoNewline-str_int r.exit_code))
    ]
  ]
]

-- The summary is one line, if the directive and the runtime's name are: newlines of the output are
-- replaced, and the numbers and reasons that it prints have none.
pub summarize-NoNewline :
    (args : SummarizeArgs)
    → NoNewline args.plan.directive
    → NoNewline args.sandbox.runtime
    → NoNewline (summarize args)
unfolding summarize codes
summarize-NoNewline args d r =
    let s = args.sandbox in
    let wall = NoNewline-digits _ (str_nat-IsDigit s.wall_ms) in
    elim (Bool-cases (is_ok s)) [
      | inl ok ↦ rw ok (
          join (codes "Run completed (directive=") _ (omega arith) (
            join args.plan.directive _ d (
              join (codes ", exit=0, ") _ (omega arith) (
                join (str_nat s.wall_ms) _ wall (
                  join (codes "ms via ") _ (omega arith) (
                    join s.runtime _ r (
                      join (codes "). Output: ") _ (omega arith)
                        (excerpt_bounded s.stdout_tail).1)))))))
      | inr bad ↦ rw bad (
          join (codes "Run failed (directive=") _ (omega arith) (
            join args.plan.directive _ d (
              join (codes ", reason=") _ (omega arith) (
                join (str_option (failure_reason s)) _ (NoNewline-reason s) (
                  join (codes ", exit=") _ (omega arith) (
                    join (str_int s.exit_code) _ (NoNewline-str_int s.exit_code) (
                      join (codes ", ") _ (omega arith) (
                        join (str_nat s.wall_ms) _ wall (
                          join (codes "ms via ") _ (omega arith) (
                            join s.runtime _ r (
                              join (codes "). Stderr: ") _ (omega arith)
                                (excerpt_bounded s.stderr_tail).1)))))))))))
    ]
