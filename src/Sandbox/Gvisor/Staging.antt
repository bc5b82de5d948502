-- ===== src/Sandbox/Gvisor/Staging.antt =====
-- The temporary directory of `GvisorRunner.run`: what it puts there before the launch, and its end.
pub mod Disk
pub mod Launches
use temporal_agent_sandbox.Prelude.{
  ℕ, ◌+◌, ◌*◌, Text, codes, take, Option, none, some, List, [], ◌∷◌, ◌++◌,
}
use temporal_agent_sandbox.Prelude.Utf8.{encode}
use temporal_agent_sandbox.Contracts.{RunSandboxArgs}
use temporal_agent_sandbox.Sandbox.Gvisor.Loop.{
  Effect, make_directory, write_text, chmod, delete_directory,
}

-- `Path(tmp) / "code.py"` and `Path(tmp) / "input.json"`
unfoldable pub code_file : Text → Text
code_file tmp = tmp ++ codes "/code.py"

unfoldable pub input_file : Text → Text
input_file tmp = tmp ++ codes "/input.json"

-- a mode by its three octal digits
abbrev pub octal : ℕ → ℕ → ℕ → ℕ
octal owner group others = 64 * owner + (8 * group + others)

-- all that is staged, in order
unfoldable pub staging : RunSandboxArgs → Text → List Effect
unfolding code_file input_file
staging args tmp =
    make_directory tmp
    ∷ write_text (code_file tmp) (encode args.code)
    ∷ write_text (input_file tmp) (encode (codes "{}"))
    ∷ chmod tmp (octal 7 5 5)
    ∷ chmod (code_file tmp) (octal 6 4 4)
    ∷ chmod (input_file tmp) (octal 6 4 4)
    ∷ []

-- the end of the `with` statement behind some effects in it: a directory that was made is deleted
abbrev pub closed : Text → List Effect → List Effect
closed tmp [] = []
closed tmp (e ∷ es) = (e ∷ es) ++ delete_directory tmp ∷ []

-- the same behind an outcome, which is `none` while `run` is still waiting
abbrev pub closing : {A : Type 0} → Text → Option A → List Effect
closing tmp none = []
closing tmp (some _) = delete_directory tmp ∷ []
