-- ===== src/Agents/Codegen.antt =====
-- app/agents/codegen.py: the program for a directive. `none` is the `KeyError` of `_TEMPLATES[…]`,
-- or the exception of `str.format` on a template that it cannot fill in.
pub mod Embedding
use temporal_agent_sandbox.Prelude.{
  ℕ, Text, codes, ◌==◌, Option, none, some, List, [], ◌∷◌, ◌++◌, nat_eq, if◌then◌else◌,
}
use temporal_agent_sandbox.Prelude.Json.{dumps_str}

abbrev pub directives : List Text
directives =
    codes "normal"
    ∷ codes "fail"
    ∷ codes "hang"
    ∷ codes "oom"
    ∷ codes "net"
    ∷ codes "fork"
    ∷ codes "bigout"
    ∷ []

unfoldable pub normal_program : Text
normal_program =
    codes "import json, hashlib\n"
    ++ codes "TASK = {task}\n"
    ++ codes "result = {{\n"
    ++ codes "    \"task_len\": len(TASK),\n"
    ++ codes "    \"word_count\": len(TASK.split()),\n"
    ++ codes "    \"sha256\": hashlib.sha256(TASK.encode()).hexdigest(),\n"
    ++ codes "}}\n"
    ++ codes "print(json.dumps(result))\n"

unfoldable pub fail_program : Text
fail_program =
    codes "import sys\n"
    ++ codes "print(\"intentional failure (directive=fail)\")\n"
    ++ codes "sys.exit(3)\n"

unfoldable pub hang_program : Text
hang_program =
    codes "# Spin forever; the sandbox wall-clock must kill this.\n"
    ++ codes "while True:\n"
    ++ codes "    pass\n"

unfoldable pub oom_program : Text
oom_program =
    codes "# Grow memory until the cgroup OOM-killer fires.\n"
    ++ codes "buf = bytearray()\n"
    ++ codes "chunk = bytes(10 * 1024 * 1024)\n"
    ++ codes "while True:\n"
    ++ codes "    buf += chunk\n"

unfoldable pub net_program : Text
net_program =
    codes "# Attempt egress; the sandbox has NO network interface, so this must fail.\n"
    ++ codes "# Fail CLOSED: if the connection ever succeeds, exit non-zero so a broken isolation\n"
    ++ codes "# surfaces as a FAILED run (not an ok run), not merely a printed warning.\n"
    ++ codes "import socket, sys\n"
    ++ codes "try:\n"
    ++ codes "    s = socket.create_connection((\"1.1.1.1\", 80), timeout=5)\n"
    ++ codes "    print(\"NETWORK REACHABLE - ISOLATION FAILED\")\n"
    ++ codes "    s.close()\n"
    ++ codes "    sys.exit(99)\n"
    ++ codes "except OSError as e:\n"
    ++ codes "    print(\"network blocked:\", e)\n"
    ++ codes "    sys.exit(42)\n"

unfoldable pub fork_program : Text
fork_program =
    codes "# Try to exceed the PID cap; the limit must contain this.\n"
    ++ codes "import os, sys, time\n"
    ++ codes "children = []\n"
    ++ codes "try:\n"
    ++ codes "    for _ in range(1000):\n"
    ++ codes "        pid = os.fork()\n"
    ++ codes "        if pid == 0:\n"
    ++ codes "            time.sleep(60)\n"
    ++ codes "            os._exit(0)\n"
    ++ codes "        children.append(pid)\n"
    ++ codes "except OSError as e:\n"
    ++ codes "    print(\"pid limit hit:\", e)\n"
    ++ codes "    sys.exit(7)\n"
    ++ codes "print(\"forked\", len(children))\n"
    ++ codes "sys.exit(0)\n"

unfoldable pub bigout_program : Text
bigout_program =
    codes "# Emit more than the output cap; the runner must truncate.\n"
    ++ codes "import sys\n"
    ++ codes "line = \"A\" * 1024\n"
    ++ codes "for _ in range(5000):\n"
    ++ codes "    sys.stdout.write(line)\n"
    ++ codes "sys.stdout.write(\"\\n\")\n"

-- Where `str.format` stands in its template.
pub data Mode : Type 0 where
  outside opened closing : Mode
  in_field : Text → Mode

-- The output so far decided by one character: a character to copy, a field to fill in, or neither.
pub data Piece : Type 0 where
  copy : ℕ → Piece
  fill : Piece
  next : Mode → Piece
  refuse : Piece

pub piece : Mode → ℕ → Piece
piece outside c =
    if nat_eq c b'{' then next opened else if nat_eq c b'}' then next closing else copy c
piece opened c =
    if nat_eq c b'{' then copy c else if nat_eq c b'}' then refuse else next (in_field (c ∷ []))
piece closing c = if nat_eq c b'}' then copy c else refuse
piece (in_field name) c =
    if nat_eq c b'}'
    then (if name == codes "task" then fill else refuse)
    else next (in_field (name ++ c ∷ []))

abbrev pub put : Text → Option Text → Option Text
put s none = none
put s (some t) = some (s ++ t)

-- `template.format(task=value)`, for a template whose fields are plain names
pub format_from : Mode → Text → Text → Option Text
format_from outside [] value = some []
format_from _ [] value = none
format_from mode (c ∷ s) value = elim (piece mode c) [
  | copy x ↦ put (x ∷ []) (format_from outside s value)
  | fill ↦ put value (format_from outside s value)
  | next mode' ↦ format_from mode' s value
  | refuse ↦ none
]

unfoldable pub format : Text → Text → Option Text
unfolding format_from piece
format template value = format_from outside template value

abbrev pub templates : List (Text × Text)
templates =
    (codes "fail", fail_program)
    ∷ (codes "hang", hang_program)
    ∷ (codes "oom", oom_program)
    ∷ (codes "net", net_program)
    ∷ (codes "fork", fork_program)
    ∷ (codes "bigout", bigout_program)
    ∷ []

-- `table[key]`
unfoldable pub lookup {ℓ} : {V : Type ℓ} → Text → List (Text × V) → Option V
lookup k [] = none
lookup k ((j, v) ∷ m) = if k == j then some v else lookup k m

unfoldable pub generate_program : Text → Text → Option Text
unfolding lookup
generate_program directive task =
    if directive == codes "normal"
    then format normal_program (dumps_str task)
    else lookup directive templates
