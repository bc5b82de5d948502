-- ===== src/Sandbox/Gvisor/Staging/Launches.antt =====
-- The disk at the moments when a container is launched.
use temporal_agent_sandbox.Prelude.{Text, List, [], ◌∷◌, ◌++◌, All}
use temporal_agent_sandbox.Contracts.{RunSandboxArgs}
use temporal_agent_sandbox.Sandbox.Gvisor.Staging.{staging}
use temporal_agent_sandbox.Sandbox.Gvisor.Staging.Disk.{Disk, apply, apply_all, AtLaunch}
use temporal_agent_sandbox.Sandbox.Gvisor.Loop.{
  Effect, make_directory, write_text, chmod, delete_directory, launch, heartbeat, remove,
}

abbrev pub NoLaunch : Effect → Type 0
NoLaunch (launch _) = ⊥
NoLaunch _ = Unit

pub NoLaunch-AtLaunch :
    (P : Disk → Type 0) (es : List Effect) (d : Disk) → All NoLaunch es → AtLaunch P es d
unfolding AtLaunch
NoLaunch-AtLaunch P [] d h = tt
NoLaunch-AtLaunch P (launch _ ∷ es) d (b, h) = absurd b
NoLaunch-AtLaunch P (heartbeat _ ∷ es) d (_, h) = NoLaunch-AtLaunch P es d h
NoLaunch-AtLaunch P (remove _ ∷ es) d (_, h) = NoLaunch-AtLaunch P es d h
NoLaunch-AtLaunch P (make_directory path ∷ es) d (_, h) =
    NoLaunch-AtLaunch P es (apply (make_directory path) d) h
NoLaunch-AtLaunch P (write_text path text ∷ es) d (_, h) =
    NoLaunch-AtLaunch P es (apply (write_text path text) d) h
NoLaunch-AtLaunch P (chmod path mode ∷ es) d (_, h) =
    NoLaunch-AtLaunch P es (apply (chmod path mode) d) h
NoLaunch-AtLaunch P (delete_directory path ∷ es) d (_, h) =
    NoLaunch-AtLaunch P es (apply (delete_directory path) d) h

-- effects that launch nothing, behind others
pub AtLaunch-append :
    (P : Disk → Type 0) (es fs : List Effect) (d : Disk)
    → AtLaunch P es d
    → All NoLaunch fs
    → AtLaunch P (es ++ fs) d
unfolding AtLaunch
AtLaunch-append P [] fs d h k = NoLaunch-AtLaunch P fs d k
AtLaunch-append P (launch _ ∷ es) fs d (p, h) k = (p, AtLaunch-append P es fs d h k)
AtLaunch-append P (heartbeat _ ∷ es) fs d h k = AtLaunch-append P es fs d h k
AtLaunch-append P (remove _ ∷ es) fs d h k = AtLaunch-append P es fs d h k
AtLaunch-append P (make_directory path ∷ es) fs d h k =
    AtLaunch-append P es fs (apply (make_directory path) d) h k
AtLaunch-append P (write_text path text ∷ es) fs d h k =
    AtLaunch-append P es fs (apply (write_text path text) d) h k
AtLaunch-append P (chmod path mode ∷ es) fs d h k =
    AtLaunch-append P es fs (apply (chmod path mode) d) h k
AtLaunch-append P (delete_directory path ∷ es) fs d h k =
    AtLaunch-append P es fs (apply (delete_directory path) d) h k

pub staging-NoLaunch : (args : RunSandboxArgs) (tmp : Text) → All NoLaunch (staging args tmp)
unfolding staging
staging-NoLaunch args tmp = (tt, (tt, (tt, (tt, (tt, (tt, tt))))))

pub staged-AtLaunch :
    (P : Disk → Type 0) (args : RunSandboxArgs) (tmp : Text) (argv : List Text) (es : List Effect)
    (d : Disk)
    → P (apply_all (staging args tmp) d)
    → All NoLaunch es
    → AtLaunch P (staging args tmp ++ launch argv ∷ es) d
unfolding staging AtLaunch apply_all
staged-AtLaunch P args tmp argv es d ready h = (ready, NoLaunch-AtLaunch P es _ h)
