-- ===== src/Pipeline/Arguments/Tests.antt =====
-- The pipeline with its validation on a concrete call, and its theorem there.
use ninjacode_agent.Breaker.{new}
use ninjacode_agent.Permissions.{balanced, evaluate, read_only}
use ninjacode_agent.Pipeline.{ToolCall, Tool, running, Registry, Deps, Session}
use ninjacode_agent.Pipeline.Arguments.{validated, validating}
use ninjacode_agent.Pipeline.Calls.{run_tool_call}
use ninjacode_agent.Pipeline.Events.{executions, runs}
use ninjacode_agent.Prelude.{ltb, ◌==◌, ℕ, ◌+◌, String, ◌≡◌, refl, true, false, none, some, [], ◌∷◌}
use ninjacode_agent.Prelude.Maps.{get}
use ninjacode_agent.Prelude.Results.{ok}
use ninjacode_agent.Prelude.Texts.{member, Text, text_eq, codes}
use ninjacode_agent.Schema.{
  no_items, Entries, no_entries, entry, array_value, Platform, item, text_value, Issue, Json,
  bool_value,
}

abbrev plain_js : Platform ℕ
plain_js = record {
  is_finite = λ n. true;
  is_zero = λ n. n == 0;
  is_integer = λ n. true;
  is_below = λ n m. ltb n m;
  of_length = λ n. n;
  json_equal = λ a b. false;
  is_bounded_pattern = λ pattern s. true;
  matches = λ pattern s. some true;
}

abbrev word : String → Json ℕ
word s = text_value (codes s)

abbrev path_schema : Tool (Entries ℕ) → Entries ℕ
path_schema tool = entry (codes "type") (word "object") (
    entry (codes "required") (array_value (item (word "path") no_items))
      (entry (codes "additionalProperties") (bool_value true) no_entries))

abbrev quiet : Deps ℕ (Entries ℕ)
quiet = record {
  now = λ w. w;
  is_aborted = λ w. false;
  is_abort_error = λ thrown. false;
  is_truncated = λ args. false;
  validate = λ tool args. none;
  has_handler = false;
  parallel_tool_reads = false;
  get_state = λ w. running;
  set_state = λ state w. w;
  ask = λ request w. (w, ok (record { approved = false; remember = false }));
  run_hooks = λ event tc w. (w, ok []);
  execute = λ tool args w. (w + 1, ok (codes "done"));
  sleep = λ ms w. (w + ms, none);
  archive = λ output w. (w, ok none);
  on_modified_files = λ tool w. w;
  post_edit_diagnostics = λ output w. (w, none);
}

abbrev start : Session ℕ (Entries ℕ)
start = record {
  world = 0;
  permissions = record { mode = balanced; allowlist = none; denylist = none; grants = none };
  breaker = new 3 none;
  events = [];
}

abbrev tools : Registry (Entries ℕ)
tools =
    (
      codes "read_file",
      record {
        name = codes "read_file";
        risk = read_only;
        target = λ args. some (codes "a.ts");
        risk_for = none;
        grant_scopes = none;
        grant_policy = none;
        retry_policy = none;
        schema_retry = none;
      },
    )
    ∷ []

abbrev call_with : Entries ℕ → ToolCall (Entries ℕ)
call_with args = record { id = codes "1"; name = codes "read_file"; arguments = args }

abbrev read_call : ToolCall (Entries ℕ)
read_call = call_with (entry (codes "path") (word "a.ts") no_entries)

abbrev words : Issue → Text
words issue = codes "issue"

refused :
    runs (
      (run_tool_call
        (validating plain_js path_schema words quiet)
        tools
        (call_with no_entries)
        start).0)
    ≡ 0
unfolding run_tool_call executions get new text_eq evaluate member validated
refused = refl
