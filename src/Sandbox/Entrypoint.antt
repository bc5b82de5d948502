-- ===== src/Sandbox/Entrypoint.antt =====
-- app/sandbox/runtime/entrypoint.py: the process in the container, on what becomes of the untrusted
-- code. The exit code of a `SystemExit` that leaves the process is Python's.
pub mod Verdict
use temporal_agent_sandbox.Prelude.{
  ltb, if◌then◌else◌, ℕ, ◌-◌, ◌%◌, ℤ, pos, negsuc, Text, codes, Bool, true, false,
}

-- the argument of `SystemExit`: None, an integer, or another object
pub data ExitArgument : Type 0 where
  nothing : ExitArgument
  status : ℤ → ExitArgument
  object : ExitArgument

-- How `runpy.run_path` ends; `raises` is any other `BaseException`.
pub data Program : Type 0 where
  finishes : Program
  exits : ExitArgument → Program
  raises : Program

-- the process: its exit code, and whether `traceback.print_exc` has written to its standard error
pub record Process : Type 0 where
  pub exit_code : ℕ
  pub traceback : Bool

-- Python's exit code for an argument: an integer goes through a C long of 64 bits (up to 2 ^ 63), and one that does not
-- fit is -1; the system keeps the low eight bits
pub exit_code_of : ExitArgument → ℕ
exit_code_of nothing = 0
exit_code_of (status (pos n)) = if ltb n (9_223_372_036_854_775_808) then n % 256 else 255
exit_code_of (status (negsuc n)) = if ltb n (9_223_372_036_854_775_808) then 255 - n % 256 else 255
exit_code_of object = 1

-- the `try` statement
unfoldable pub main : Program → Process
unfolding exit_code_of
main finishes = record { exit_code = 0; traceback = false }
main (exits argument) = record { exit_code = exit_code_of argument; traceback = false }
main raises = record { exit_code = exit_code_of (status (pos 1)); traceback = true }
