-- ===== src/Agents/Pipeline/Directive.antt =====
-- Which directive a task names, and that code generation accepts every plan.
use temporal_agent_sandbox.Prelude.{
  Text, codes, ◌==◌, ==_iff, ==_refl, none, some, List, [], ◌∷◌, ◌++◌, true, false, ◌≡◌, ◌≢◌, refl,
  All, is_one_of, arith, ◌⊎◌, inl, inr, Bool-cases, Option-cases, ap, map, is_in-append, ◌is_in◌,
  ne_of_test,
}
use temporal_agent_sandbox.Prelude.Methods.{
  Unicode, lower, IsAscii, lower_ascii, lower_from-append, lower_from-split,
}
use temporal_agent_sandbox.Agents.Codegen.{directives, generate_program, lookup}
use temporal_agent_sandbox.Agents.Codegen.Embedding.{format-normal_program}
use temporal_agent_sandbox.Prelude.Json.{dumps_str}
use mathlib.Core.Path.{subst}
use temporal_agent_sandbox.Agents.Pipeline.{
  names, find_directive, parse_directive, plan, generate_code,
}

-- The directive is found at its place in the list: it is named in the text, and no directive in
-- front of it is.
pub record FoundIn (low d : Text) (ds : List Text) : Type 0 where
  pub before : List Text
  pub after : List Text
  pub place : ds ≡ before ++ d ∷ after
  pub special : d ≢ codes "normal"
  pub named : names low d ≡ true
  pub first : All (λ x. x ≢ codes "normal" → names low x ≡ false) before

abbrev pub IsUnnamed : Text → List Text → Type 0
IsUnnamed low = All (λ x. x ≢ codes "normal" → names low x ≡ false)

FoundIn-cons :
    {low d x : Text} {ds : List Text}
    → (x ≢ codes "normal" → names low x ≡ false)
    → FoundIn low d ds
    → FoundIn low d (x ∷ ds)
FoundIn-cons {x} h f = record {
  before = x ∷ f.before;
  after = f.after;
  place = ap (λ l. x ∷ l) f.place;
  special = f.special;
  named = f.named;
  first = (h, f.first);
}

abbrev pub Choice : Text → Text → List Text → Type 0
Choice low d ds = ((d ≡ codes "normal") × IsUnnamed low ds) ⊎ FoundIn low d ds

Choice-cons :
    {low d x : Text} {ds : List Text}
    → (x ≢ codes "normal" → names low x ≡ false)
    → Choice low d ds
    → Choice low d (x ∷ ds)
Choice-cons h (inl (e, unnamed)) = inl (e, (h, unnamed))
Choice-cons h (inr f) = inr (FoundIn-cons h f)

find_directive-Choice : (low : Text) (ds : List Text) → Choice low (find_directive low ds) ds
unfolding find_directive
find_directive-Choice low [] = inl (refl, tt)
find_directive-Choice low (x ∷ ds) = elim (Bool-cases (x == codes "normal")) [
  | inl normal ↦
      rw normal
        (Choice-cons (λ ne. absurd (ne ((==_iff x _).0 normal))) (find_directive-Choice low ds))
  | inr special ↦ elim (Bool-cases (names low x)) [
    | inl named ↦
        rw (special, named)
          (inr (record {
            before = [];
            after = ds;
            place = refl;
            special = ne_of_test _ _ special;
            named = named;
            first = tt;
          }))
    | inr unnamed ↦
        let same : find_directive low ds ≡ find_directive low (x ∷ ds) = rw (special, unnamed) in
        subst (λ d. Choice low d (x ∷ ds)) same
          (Choice-cons (λ _. unnamed) (find_directive-Choice low ds))
  ]
]

-- `parse_directive` returns the first directive of the list that the lower-cased task names, and
-- `normal` only if it names none.
pub parse_directive-Choice :
    (u : Unicode) (task : Text) → Choice (lower u task) (parse_directive u task) directives
unfolding parse_directive
parse_directive-Choice u task = find_directive-Choice (lower u task) directives

find_directive-mem :
    (low : Text) (ds : List Text) → is_one_of (find_directive low ds) (codes "normal" ∷ ds) ≡ true
unfolding find_directive is_one_of
find_directive-mem low [] = rw (==_refl (codes "normal"))
find_directive-mem low (d ∷ ds) = ground (arith, find_directive-mem low ds, ==_refl d)

-- The result of `parse_directive` is one of `DIRECTIVES`.
pub parse_directive-mem :
    (u : Unicode) (task : Text) → is_one_of (parse_directive u task) directives ≡ true
unfolding parse_directive is_one_of
parse_directive-mem u task = ground (arith, find_directive-mem (lower u task) directives)

generate_program-ne-none :
    (d task : Text) → is_one_of d directives ≡ true → generate_program d task ≢ none
unfolding generate_program is_one_of lookup
generate_program-ne-none d task h = ground (arith, format-normal_program (dumps_str task))

-- Every task gets a plan for which code generation returns a program: `_TEMPLATES[directive]` has
-- the key, whatever the task says.
pub generate_code_total :
    (u : Unicode) (task : Text) → (program : Text) × (generate_code (plan u task) ≡ some program)
unfolding generate_code plan
generate_code_total u task =
    let listed = parse_directive-mem u task in
    elim (Option-cases (generate_program (parse_directive u task) task)) [
      | inl missing ↦ absurd (generate_program-ne-none _ task listed missing)
      | inr made ↦ made
    ]

named_tag :
    (u : Unicode) (front tag back d : Text)
    → IsAscii tag
    → map lower_ascii tag ≡ d
    → d is_in lower u (front ++ (tag ++ back)) ≡ true
unfolding lower
named_tag u front tag back d ascii e =
    let (before, split) = lower_from-split u [] front (tag ++ back) in
    rw (split, lower_from-append u front tag back ascii, e) (is_in-append d before _)

find_directive_fail :
    (low : Text) → codes "[fail]" is_in low ≡ true → find_directive low directives ≡ codes "fail"
unfolding find_directive names codes ◌==◌
find_directive_fail low h = rw h

-- A task that holds `[fail]`, in any case, is planned as `fail`, whatever stands around it.
pub plan_fail :
    (u : Unicode) (front tag back : Text)
    → IsAscii tag
    → map lower_ascii tag ≡ codes "[fail]"
    → (plan u (front ++ (tag ++ back))).directive ≡ codes "fail"
unfolding plan parse_directive
plan_fail u front tag back ascii e =
    find_directive_fail (lower u (front ++ (tag ++ back)))
      (named_tag u front tag back (codes "[fail]") ascii e)
