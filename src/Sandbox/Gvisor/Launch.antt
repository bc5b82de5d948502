-- ===== src/Sandbox/Gvisor/Launch.antt =====
-- Docker control commands, the preflight check, and the classification of launch failures.
pub mod FailClosed
pub mod Names
use temporal_agent_sandbox.Prelude.{
  ℕ, ℤ, pos, int_eq, Text, codes, ◌==◌, ◌is_in◌, non_empty, str_nat, str_int, take, any, Option,
  none, some, Bool, true, false, not, ◌&&◌, ◌||◌, List, [], ◌∷◌, ◌++◌, if◌then◌else◌,
}
use temporal_agent_sandbox.Prelude.Utf8.{Bytes, encode, decode}
use temporal_agent_sandbox.Prelude.Methods.{Unicode, lower, strip}
use temporal_agent_sandbox.Sandbox.Runner.{◌>>=◌, Result, ok, err, infra_error, policy_violation}

-- What becomes of a subprocess: the program is not there, it outlasts the timeout, or it exits. Another
-- exception of the start or of the wait, such as `PermissionError` or a cancellation, is an error beside.
pub data Subprocess : Type 0 where
  not_found : Subprocess
  timed_out : Subprocess
  exited : Option ℤ → Bytes → Bytes → Subprocess

-- `returncode or 0`
abbrev pub code_or_zero : Option ℤ → ℤ
code_or_zero none = pos 0
code_or_zero (some rc) = rc

-- what `_run_cmd` returns: the exit code, and the two outputs
unfoldable pub answer_of : Subprocess → ℤ × Bytes × Bytes
answer_of not_found = (pos 127, [], encode (codes "docker CLI not found on PATH"))
answer_of timed_out = (pos 124, [], encode (codes "control command timed out"))
answer_of (exited rc out errors) = (code_or_zero rc, out, errors)

-- `_run_cmd`, on what becomes of the command; another exception leaves it
unfoldable pub run_cmd : Result Subprocess → Result (ℤ × Bytes × Bytes)
unfolding answer_of
run_cmd (err e) = err e
run_cmd (ok command) = ok (answer_of command)

-- `_container_name`; `sha1` is `hashlib.sha1(…).hexdigest()`
unfoldable pub container_name : (Bytes → Text) → Text → ℕ → Text
container_name sha1 run_id attempt =
    codes "sbx-" ++ (take 16 (sha1 (encode run_id)) ++ (codes "-" ++ str_nat attempt))

-- the argument vector of `preflight`
abbrev pub info_command : List Text
info_command = codes "docker" ∷ codes "info" ∷ codes "--format" ∷ codes "{{json .Runtimes}}" ∷ []

-- `preflight`, on what becomes of `docker info`
unfoldable pub preflight : Text → Result Subprocess → Result (Unit {0})
unfolding run_cmd
preflight runtime info =
    if runtime == codes "runc"
    then ok tt
    else run_cmd info >>= λ answer.
        let (rc, out, _) = answer in
        if not (int_eq rc 0) || not ((codes "\"" ++ (runtime ++ codes "\"")) is_in decode out)
        then err (
            policy_violation (
              codes "sandbox runtime '"
              ++ (runtime
                  ++ (codes "' is not registered with Docker; refusing "
                      ++ codes "to fall back to runc (fail-closed). Run `make setup-gvisor`."))))
        else ok tt

-- `_image_digest`, on what becomes of `docker image inspect` where `_run_cmd` returns
unfoldable pub image_digest : Subprocess → Option Text
unfolding answer_of
image_digest inspect =
    let (rc, out, _) = answer_of inspect in
    let digest = strip (decode out) in if int_eq rc 0 && non_empty digest then some digest else none

-- `_LAUNCH_RCS`
unfoldable pub is_launch_rc : ℤ → Bool
is_launch_rc rc = int_eq rc 125 || int_eq rc 126 || int_eq rc 127

-- `_LAUNCH_SIGNATURES`
abbrev pub launch_signatures : List Text
launch_signatures =
    codes "docker:"
    ∷ codes "error response from daemon"
    ∷ codes "oci runtime"
    ∷ codes "executable file not found"
    ∷ codes "unknown runtime"
    ∷ codes "no such image"
    ∷ codes "manifest unknown"
    ∷ []

-- `any(sig in lowered for sig in _LAUNCH_SIGNATURES)`
unfoldable pub has_signature : Text → Bool
has_signature lowered = any (λ sig. sig is_in lowered) launch_signatures

-- `_classify_infra`
unfoldable pub classify_infra : Unicode → Text → ℤ → Text → Result (Unit {0})
classify_infra u runtime rc err_text =
    let lowered = lower u err_text in
    if not (is_launch_rc rc)
    then ok tt
    else if not (has_signature lowered)
    then ok tt
    else if codes "unknown runtime" is_in lowered || runtime is_in lowered
    then err (policy_violation (codes "runtime unavailable: " ++ strip err_text))
    else err (
        infra_error (
          codes "sandbox failed to start (docker rc="
          ++ (str_int rc ++ (codes "): " ++ strip err_text))))
