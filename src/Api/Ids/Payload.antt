-- ===== src/Api/Ids/Payload.antt =====
-- The hashed payload determines the task and the parameters, though it is their texts run together.
use temporal_agent_sandbox.Prelude.{
  ℕ, Text, codes, str_nat, str_nat-injective, str_nat-IsDigit, IsDigit, Option, none, some, [], ◌∷◌,
  ◌++◌, ◌≡◌, ◌≢◌, refl, sym, ap, ◌∙◌, arith, All, All-append,
}
use mathlib.Core.List.{reverse, reverse-append, reverse-reverse, append_assoc, append_cancel_right}
use temporal_agent_sandbox.Api.Ids.{RunRequest, dumps_value, dumps_params, payload_text}

abbrev NoSpace : Text → Type 0
NoSpace = All (λ c. c ≢ b' ')

-- Two texts that agree up to a space, which neither part in front of it holds, agree on both sides.
split_at_space :
    (s t a b : Text) → NoSpace s → NoSpace t → s ++ b' ' ∷ a ≡ t ++ b' ' ∷ b → (s ≡ t) × (a ≡ b)
split_at_space [] [] a b hs ht e = ground arith
split_at_space [] (d ∷ t) a b hs ht e = absurd (ground arith)
split_at_space (c ∷ s) [] a b hs ht e = absurd (ground arith)
split_at_space (c ∷ s) (d ∷ t) a b hs ht e =
    let (same, rest) = split_at_space s t a b hs.1 ht.1 (ground arith) in (ground arith, rest)

NoSpace-reverse : (s : Text) → NoSpace s → NoSpace (reverse s)
NoSpace-reverse [] h = tt
NoSpace-reverse (c ∷ s) (p, h) =
    rw (reverse-append (c ∷ []) s)
      (All-append (λ d. d ≢ b' ') (reverse s) (c ∷ []) (NoSpace-reverse s h) (p, tt))

NoSpace-digits : (s : Text) → All IsDigit s → NoSpace s
NoSpace-digits [] h = tt
NoSpace-digits (c ∷ s) (d, h) = (λ e. omega arith, NoSpace-digits s h)

NoSpace-value : (v : Option ℕ) → NoSpace (dumps_value v)
unfolding dumps_value codes
NoSpace-value none = omega arith
NoSpace-value (some n) = NoSpace-digits (str_nat n) (str_nat-IsDigit n)

null_no_digits : (s : Text) → All IsDigit s → codes "null" ≢ s
unfolding codes
null_no_digits [] h e = cc
null_no_digits (c ∷ s) h e = ground arith

dumps_value-injective : (v w : Option ℕ) → dumps_value v ≡ dumps_value w → v ≡ w
unfolding dumps_value
dumps_value-injective none none e = refl
dumps_value-injective none (some n) e = absurd (null_no_digits _ (str_nat-IsDigit n) e)
dumps_value-injective (some m) none e = absurd (null_no_digits _ (str_nat-IsDigit m) (sym e))
dumps_value-injective (some m) (some n) e = ap some (str_nat-injective m n e)

reverse-at_space : (s v : Text) → reverse (s ++ b' ' ∷ v) ≡ reverse v ++ b' ' ∷ reverse s
reverse-at_space s v =
    reverse-append s (b' ' ∷ v)
    ∙ ap (λ r. r ++ reverse s) (reverse-append (b' ' ∷ []) v)
    ∙ append_assoc (reverse v) (b' ' ∷ []) (reverse s)

reverse-injective : (s t : Text) → reverse s ≡ reverse t → s ≡ t
reverse-injective s t e = sym (reverse-reverse s) ∙ ap reverse e ∙ reverse-reverse t

-- The same for the last space.
split_at_last_space :
    (s t v w : Text) → NoSpace v → NoSpace w → s ++ b' ' ∷ v ≡ t ++ b' ' ∷ w → (s ≡ t) × (v ≡ w)
split_at_last_space s t v w hv hw e =
    let (same, rest) =
      split_at_space (reverse v) (reverse w) (reverse s) (reverse t) (NoSpace-reverse v hv)
        (NoSpace-reverse w hw) (sym (reverse-at_space s v) ∙ ap reverse e ∙ reverse-at_space t w) in
    (reverse-injective s t rest, reverse-injective v w same)

abbrev key_text : Text
key_text = codes "{\"sandbox_timeout_s\":"

-- The payload, from its end: a brace, the value, and what stands in front.
payload_split :
    (r : RunRequest)
    → payload_text r
      ≡ ((r.task ++ key_text) ++ b' ' ∷ dumps_value r.params.sandbox_timeout_s) ++ codes "}"
unfolding payload_text dumps_params codes
payload_split r = sym (
    append_assoc (r.task ++ key_text) (b' ' ∷ dumps_value r.params.sandbox_timeout_s) (codes "}")
    ∙ append_assoc r.task key_text (b' ' ∷ (dumps_value r.params.sandbox_timeout_s ++ codes "}")))

-- Requests with the same payload text have the same task and the same parameters.
pub payload_text-injective :
    (r q : RunRequest)
    → payload_text r ≡ payload_text q
    → (r.task ≡ q.task) × (r.params.sandbox_timeout_s ≡ q.params.sandbox_timeout_s)
payload_text-injective r q e =
    let v = r.params.sandbox_timeout_s in
    let w = q.params.sandbox_timeout_s in
    let (fronts, values) =
      split_at_last_space (r.task ++ key_text) (q.task ++ key_text) (dumps_value v) (dumps_value w)
        (NoSpace-value v) (NoSpace-value w)
        (append_cancel_right _ _ (codes "}") (sym (payload_split r) ∙ e ∙ payload_split q)) in
    (append_cancel_right r.task q.task key_text fronts, dumps_value-injective v w values)
