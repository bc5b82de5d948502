-- ===== src/Sandbox/Gvisor/Staging/Disk.antt =====
-- The temporary directory on a disk: what the effects do to it, and when its files are ready.
use mathlib.Core.List.{append_assoc}
use temporal_agent_sandbox.Prelude.{
  ℕ, Text, codes, ◌==◌, ==_iff, starts_with, starts_with-append, none, some, true, false, List, [],
  ◌∷◌, ◌++◌, if◌then◌else◌, ◌≡◌, refl, sym, ap, ◌∙◌, arith, inl, inr, All, All-append, Bool-cases,
}
use temporal_agent_sandbox.Prelude.Utf8.{Bytes, encode}
use temporal_agent_sandbox.Prelude.Dict.{Dict, get, put, get-put_same, get-put_other}
use temporal_agent_sandbox.Contracts.{RunSandboxArgs}
use temporal_agent_sandbox.Sandbox.Gvisor.Staging.{code_file, input_file, octal, staging, closed}
use temporal_agent_sandbox.Sandbox.Gvisor.Loop.{
  Effect, make_directory, write_text, chmod, delete_directory, launch, heartbeat, remove,
}

-- the files with their bytes, and the modes that have been set
pub record Disk : Type 0 where
  pub files : Dict Bytes
  pub modes : Dict ℕ

-- without the keys that begin with a text
without : {V : Type 0} → Text → Dict V → Dict V
without p [] = []
without p ((k, v) ∷ d) = let rest = without p d in if starts_with k p then rest else (k, v) ∷ rest

-- What an effect does to the disk. Deleting a directory deletes every path below it.
pub apply : Effect → Disk → Disk
unfolding without
apply (make_directory path) d = record d { modes = put path (octal 7 0 0) d.modes }
apply (write_text path text) d = record d { files = put path text d.files }
apply (chmod path mode) d = record d { modes = put path mode d.modes }
apply (delete_directory path) d = record {
  files = without (path ++ codes "/") d.files;
  modes = without (path ++ codes "/") d.modes;
}
apply (launch _) d = d
apply (heartbeat _) d = d
apply (remove _) d = d

unfoldable pub apply_all : List Effect → Disk → Disk
unfolding apply
apply_all [] d = d
apply_all (e ∷ es) d = apply_all es (apply e d)

-- A predicate holds of the disk whenever a container is launched.
unfoldable pub AtLaunch : (Disk → Type 0) → List Effect → Disk → Type 0
unfolding apply
AtLaunch P [] d = Unit
AtLaunch P (launch argv ∷ es) d = P d × AtLaunch P es d
AtLaunch P (e ∷ es) d = AtLaunch P es (apply e d)

-- The two files hold the code and an empty object, the files can be read by everybody, and the
-- directory can be traversed.
pub record IsReady (args : RunSandboxArgs) (tmp : Text) (d : Disk) : Type 0 where
  pub code : get (code_file tmp) d.files ≡ some (encode args.code)
  pub input : get (input_file tmp) d.files ≡ some (encode (codes "{}"))
  pub directory_mode : get tmp d.modes ≡ some (octal 7 5 5)
  pub code_mode : get (code_file tmp) d.modes ≡ some (octal 6 4 4)
  pub input_mode : get (input_file tmp) d.modes ≡ some (octal 6 4 4)

append_same : (s a b : Text) → ((s ++ a) == (s ++ b)) ≡ (a == b)
unfolding ◌==◌
append_same [] a b = refl
append_same (c ∷ s) a b = ground (arith, append_same s a b)

append_more : (s : Text) (c : ℕ) (t : Text) → (s == (s ++ c ∷ t)) ≡ false
unfolding ◌==◌
append_more [] c t = refl
append_more (d ∷ s) c t = ground (arith, append_more s c t)

files_differ : (tmp : Text) → (code_file tmp == input_file tmp) ≡ false
unfolding code_file input_file codes ◌==◌
files_differ tmp = append_same tmp (codes "/code.py") (codes "/input.json")

directory_differs :
    (tmp : Text) → ((tmp == code_file tmp) ≡ false) × ((tmp == input_file tmp) ≡ false)
unfolding code_file input_file codes
directory_differs tmp = (append_more tmp _ _, append_more tmp _ _)

pub staging-IsReady :
    (args : RunSandboxArgs) (tmp : Text) (d : Disk)
    → IsReady args tmp (apply_all (staging args tmp) d)
unfolding apply_all apply staging
staging-IsReady args tmp d =
    let (not_code, not_input) = directory_differs tmp in
    let apart = files_differ tmp in
    record {
      code = get-put_other _ _ _ _ apart ∙ get-put_same _ _ _;
      input = get-put_same _ _ _;
      directory_mode =
          get-put_other _ _ _ _ not_input ∙ get-put_other _ _ _ _ not_code ∙ get-put_same _ _ _;
      code_mode = get-put_other _ _ _ _ apart ∙ get-put_same _ _ _;
      input_mode = get-put_same _ _ _;
    }

-- An effect touches no file but those below the directory.
abbrev pub IsOwn : Text → Effect → Type 0
IsOwn tmp (write_text path _) = starts_with path (tmp ++ codes "/") ≡ true
IsOwn tmp (delete_directory path) = path ≡ tmp
IsOwn tmp _ = Unit

get-without_inside :
    {V : Type 0} (k p : Text) (d : Dict V) → starts_with k p ≡ true → get k (without p d) ≡ none
unfolding get without
get-without_inside k p [] h = refl
get-without_inside k p ((j, v) ∷ d) h = grind (arith, get-without_inside k p d h, ==_iff k j)

get-without_outside :
    {V : Type 0} (k p : Text) (d : Dict V) → starts_with k p ≡ false → get k (without p d) ≡ get k d
unfolding get without
get-without_outside k p [] h = refl
get-without_outside k p ((j, v) ∷ d) h = grind (arith, get-without_outside k p d h, ==_iff k j)

starts_with-more : (s t u : Text) → starts_with (s ++ (t ++ u)) (s ++ t) ≡ true
starts_with-more s t u =
    ap (λ x. starts_with x (s ++ t)) (sym (append_assoc s t u)) ∙ starts_with-append (s ++ t) u

module _ (tmp k : Text) where
  outside :
      (es : List Effect) (d : Disk)
      → All (IsOwn tmp) es
      → starts_with k (tmp ++ codes "/") ≡ false
      → get k (apply_all es d).files ≡ get k d.files
  unfolding apply_all apply
  outside [] d own h = refl
  outside (launch _ ∷ es) d (_, own) h = outside es d own h
  outside (heartbeat _ ∷ es) d (_, own) h = outside es d own h
  outside (remove _ ∷ es) d (_, own) h = outside es d own h
  outside (make_directory _ ∷ es) d (_, own) h = outside es _ own h
  outside (chmod _ _ ∷ es) d (_, own) h = outside es _ own h
  outside (write_text path text ∷ es) d (below, own) h =
      outside es _ own h ∙ get-put_other path k text d.files (ground (arith, below, ==_iff k path))
  outside (delete_directory path ∷ es) d (same, own) h =
      outside es _ own h
      ∙ get-without_outside k (path ++ codes "/") d.files (ground (arith, same, h))

  -- behind the end of the directory nothing below it is left
  inside :
      (es : List Effect) (d : Disk)
      → starts_with k (tmp ++ codes "/") ≡ true
      → get k (apply_all (es ++ delete_directory tmp ∷ []) d).files ≡ none
  unfolding apply_all apply
  inside [] d h = get-without_inside k (tmp ++ codes "/") d.files h
  inside (e ∷ es) d h = inside es (apply e d) h

-- The directory is new: no file lies below it.
abbrev pub IsFresh : Text → Disk → Type 0
IsFresh tmp d = (k : Text) → starts_with k (tmp ++ codes "/") ≡ true → get k d.files ≡ none

-- The files are as they were.
abbrev pub IsRestored : List Effect → Disk → Type 0
IsRestored es d = (k : Text) → get k (apply_all es d).files ≡ get k d.files

module _ (tmp : Text) (d : Disk) (fresh : IsFresh tmp d) where
  pub ended-IsRestored :
      (es : List Effect) → All (IsOwn tmp) es → IsRestored (es ++ delete_directory tmp ∷ []) d
  ended-IsRestored es own k = elim (Bool-cases (starts_with k (tmp ++ codes "/"))) [
    | inl below ↦ inside tmp k es d below ∙ sym (fresh k below)
    | inr apart ↦
        outside tmp k (es ++ delete_directory tmp ∷ []) d
          (All-append (IsOwn tmp) es _ own (refl, tt)) apart
  ]

  pub closed-IsRestored : (es : List Effect) → All (IsOwn tmp) es → IsRestored (closed tmp es) d
  unfolding apply_all
  closed-IsRestored [] own k = refl
  closed-IsRestored (e ∷ es) own k = ended-IsRestored (e ∷ es) own k

pub staging-IsOwn : (args : RunSandboxArgs) (tmp : Text) → All (IsOwn tmp) (staging args tmp)
unfolding staging code_file input_file codes
staging-IsOwn args tmp = (
  tt,
  (
    starts_with-more tmp (codes "/") (codes "code.py"),
    (starts_with-more tmp (codes "/") (codes "input.json"), (tt, (tt, (tt, tt)))),
  ),
)

pub closed-All :
    (P : Effect → Type 0) (tmp : Text)
    → P (delete_directory tmp)
    → (es : List Effect) → All P es
    → All P (closed tmp es)
closed-All P tmp p [] h = tt
closed-All P tmp p (e ∷ es) h = All-append P (e ∷ es) _ h (p, tt)
