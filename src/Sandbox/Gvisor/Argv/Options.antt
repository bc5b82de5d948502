-- ===== src/Sandbox/Gvisor/Argv/Options.antt =====
-- The argument vector as the Docker command line reads it: flags, options with a value, the image.
use temporal_agent_sandbox.Prelude.{
  Text, codes, ◌==◌, is_one_of, non_empty, starts_with, str_nat, Option, none, some, Bool, false,
  List, [], ◌∷◌, ◌++◌, if◌then◌else◌, ◌≡◌, refl, Bool-cases, inl, inr, ◌&&◌,
}
use temporal_agent_sandbox.Contracts.{ResourceLimits}
use temporal_agent_sandbox.Config.{Settings}
use temporal_agent_sandbox.Sandbox.Gvisor.Argv.{docker_run_cmd}

-- A `docker run` command, read: the flags and options in order, the image, and what stands behind
-- it, which is the command for the container.
pub record Parsed : Type 0 where
  pub flags : List Text
  pub options : List (Text × Text)
  pub image : Text
  pub command : List Text

-- the options of `docker run` that take no value, as far as they occur
abbrev pub is_flag : Text → Bool
is_flag a = is_one_of a (codes "--rm" ∷ codes "--read-only" ∷ [])

abbrev add_flag : Text → Option Parsed → Option Parsed
add_flag a none = none
add_flag a (some p) = some (record p { flags = a ∷ p.flags })

abbrev add_option : Text → Text → Option Parsed → Option Parsed
add_option a v none = none
add_option a v (some p) = some (record p { options = (a, v) ∷ p.options })

-- Behind `docker run`: a word that begins with a dash is a flag or takes the next word as its value;
-- the first other word is the image.
pub read_args : List Text → Option Parsed
read_args [] = none
read_args (a ∷ []) =
    if starts_with a (codes "-")
    then none
    else some (record { flags = []; options = []; image = a; command = [] })
read_args (a ∷ v ∷ rest) =
    let valued = add_option a v (read_args rest) in
    let flagged = add_flag a (read_args (v ∷ rest)) in
    if is_flag a
    then flagged
    else if starts_with a (codes "-")
    then valued
    else some (record { flags = []; options = []; image = a; command = v ∷ rest })

pub read_command : List Text → Option Parsed
read_command (docker ∷ run ∷ rest) =
    if docker == codes "docker" && run == codes "run" then read_args rest else none
read_command _ = none

-- the values given for an option, in order
pub values_of : Text → List (Text × Text) → List Text
values_of k [] = []
values_of k ((j, v) ∷ m) = if k == j then v ∷ values_of k m else values_of k m

-- The isolation that every launch asks Docker for: each option that is named here is given as often
-- as the list says, so no later one overrides it, and the container's command is the image's own.
pub record IsIsolated (s : Settings) (runtime code_file input_file : Text) (limits : ResourceLimits)
    (p : Parsed) : Type 0 where
  pub flags : p.flags ≡ codes "--rm" ∷ codes "--read-only" ∷ []
  pub runtime_given : values_of (codes "--runtime") p.options ≡ runtime ∷ []
  pub no_network : values_of (codes "--network") p.options ≡ codes "none" ∷ []
  pub nobody : values_of (codes "--user") p.options ≡ codes "65534:65534" ∷ []
  pub no_capabilities : values_of (codes "--cap-drop") p.options ≡ codes "ALL" ∷ []
  pub no_added_capabilities : values_of (codes "--cap-add") p.options ≡ []
  pub not_privileged : values_of (codes "--privileged") p.options ≡ []
  pub no_swap : values_of (codes "--memory-swap") p.options ≡ values_of (codes "--memory") p.options
  pub memory : values_of (codes "--memory") p.options ≡ (str_nat limits.memory_mb ++ codes "m") ∷ []
  pub pids : values_of (codes "--pids-limit") p.options ≡ str_nat limits.pids ∷ []
  pub security :
      values_of (codes "--security-opt") p.options
      ≡ codes "no-new-privileges"
        ∷ (if non_empty s.sandbox_seccomp_path
            then (codes "seccomp=" ++ s.sandbox_seccomp_path) ∷ []
            else [])
  pub mounts :
      values_of (codes "-v") p.options
      ≡ (code_file ++ codes ":/sandbox/code.py:ro")
        ∷ (input_file ++ codes ":/sandbox/input.json:ro")
        ∷ []
  pub image : p.image ≡ s.sandbox_image
  pub no_command : p.command ≡ []

-- The command that is launched reads as an isolated one: the given runtime, no network, a read-only
-- root, user nobody, no capabilities, no new privileges, memory without swap, a process limit, two
-- read-only mounts, and the configured image with no command of its own, so the untrusted code is
-- never an argument. The image's name must not begin with a dash.
pub docker_run_cmd-IsIsolated :
    (s : Settings) (runtime name code_file input_file : Text) (limits : ResourceLimits)
    → starts_with s.sandbox_image (codes "-") ≡ false
    → (p : Parsed) × (read_command (docker_run_cmd s runtime name code_file input_file limits)
        ≡ some p)
      × IsIsolated s runtime code_file input_file limits p
unfolding docker_run_cmd read_args read_command values_of codes ◌==◌ is_one_of starts_with
docker_run_cmd-IsIsolated s runtime name code_file input_file limits h =
    elim (Bool-cases (non_empty s.sandbox_seccomp_path)) [
      | inl with_profile ↦
          rw (with_profile, h)
            (
              _,
              refl,
              record {
                flags = refl;
                runtime_given = refl;
                no_network = refl;
                nobody = refl;
                no_capabilities = refl;
                no_added_capabilities = refl;
                not_privileged = refl;
                no_swap = refl;
                memory = refl;
                pids = refl;
                security = rw with_profile;
                mounts = refl;
                image = refl;
                no_command = refl;
              },
            )
      | inr without ↦
          rw (without, h)
            (
              _,
              refl,
              record {
                flags = refl;
                runtime_given = refl;
                no_network = refl;
                nobody = refl;
                no_capabilities = refl;
                no_added_capabilities = refl;
                not_privileged = refl;
                no_swap = refl;
                memory = refl;
                pids = refl;
                security = rw without;
                mounts = refl;
                image = refl;
                no_command = refl;
              },
            )
    ]
