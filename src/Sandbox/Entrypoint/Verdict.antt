-- ===== src/Sandbox/Entrypoint/Verdict.antt =====
-- From the end of the untrusted code to the verdict on its run.
use temporal_agent_sandbox.Prelude.{◌%◌, ◌<◌, pos, negsuc, ◌≡◌}
use temporal_agent_sandbox.Sandbox.Entrypoint.{
  nothing, status, object, Program, finishes, exits, raises,
}

-- The code comes to its end, or it exits with None or with a status of 64 bits whose low eight
-- are 0.
abbrev pub EndsWell : Program → Type 0
EndsWell finishes = Unit
EndsWell (exits nothing) = Unit
EndsWell (exits (status (pos n))) = (n < 9_223_372_036_854_775_808) × (n % 256 ≡ 0)
EndsWell (exits (status (negsuc n))) = (n < 9_223_372_036_854_775_808) × (n % 256 ≡ 255)
EndsWell (exits object) = ⊥
EndsWell raises = ⊥
