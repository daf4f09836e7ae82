-- ===== src/Agent/ToolDedup.antt =====
-- internal/agent/tooldedup.go: repeated identical tool calls within one run of the agent. SHA-256 and
-- the inner tools are parameters.
pub mod Limit
pub mod Wrap
use open_nipper.Prelude.{
  ℕ, ◌+◌, Bool, true, false, Option, none, some, Text, codes, ltb, if◌then◌else◌, Dict, list_eq,
  nat_eq, pair_eq, ◌==◌,
}
use open_nipper.Prelude.GoMap.{lookup, insert}

abbrev max_identical_tool_calls : ℕ
max_identical_tool_calls = 4

abbrev max_identical_skill_exec_calls : ℕ
max_identical_skill_exec_calls = 2

-- A tool's name, and the hash of its arguments.
abbrev pub DedupKey : Type 0
DedupKey = Text × Text

-- The zero value of a missing key is 0.
abbrev pub ToolCallTracker : Type 0
ToolCallTracker = Dict DedupKey ℕ

abbrev or_zero : Option ℕ → ℕ
or_zero none = 0
or_zero (some n) = n

unfoldable pub calls_of : DedupKey → ToolCallTracker → ℕ
calls_of key t = or_zero (lookup key t)

abbrev skill_exec : Text
skill_exec = codes "skill_exec"

abbrev web_fetch : Text
web_fetch = codes "web_fetch"

unfoldable pub limit_of : Text → ℕ
limit_of name =
    if name == skill_exec then max_identical_skill_exec_calls else max_identical_tool_calls

-- The tracker's `check`: the count, and whether the limit is exceeded.
unfoldable pub check : DedupKey → ToolCallTracker → ToolCallTracker × (ℕ × Bool)
unfolding calls_of limit_of
check key t = let n = calls_of key t + 1 in (insert key n t, (n, ltb (limit_of key.0) n))

-- The message that stands for the result of a call that is not made.
pub data Refusal : Type 0 where
  repeated : Text → ℕ → Refusal
  web_fetch_repeated skill_exec_repeated : Refusal

abbrev refusal : Text → ℕ → Refusal
refusal name n =
    if name == skill_exec
    then skill_exec_repeated
    else if name == web_fetch
    then web_fetch_repeated
    else repeated name n

-- A call is refused, or the inner tool runs and answers with a text or an error.
pub data Outcome (E : Type 0) : Type 0 where
  refused : Refusal → Outcome E
  ran : E → Outcome E

-- The name of a tool whose `Info` fails is "".
abbrev pub name_or_empty : Option Text → Text
name_or_empty none = codes ""
name_or_empty (some name) = name

-- InvokableRun of a wrapped tool.
unfoldable pub invoke :
    {E : Type 0}
    → (Text → Text)
    → Option Text
    → (Text → E)
    → Text
    → ToolCallTracker
    → ToolCallTracker × Outcome E
unfolding check
invoke sha info inner args t =
    let name = name_or_empty info in
    let (t', (n, exceeded)) = check (name, sha args) t in
    if exceeded then (t', refused (refusal name n)) else (t', ran (inner args))
