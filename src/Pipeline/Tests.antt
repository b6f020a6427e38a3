-- ===== src/Pipeline/Tests.antt =====
-- The tool pipeline on concrete inputs, and its theorems there. The world is a counter that moves
-- with every question to it.
use ninjacode_agent.Breaker.{new, is_open}
use ninjacode_agent.Permissions.{
  listed, balanced, is_destructive, is_never, write, shell, PermissionPolicy, evaluate, read_only,
  scoped,
}
use ninjacode_agent.Permissions.Laws.{is_automatic}
use ninjacode_agent.Pipeline.{ToolInvocation, ToolCall, Tool, running, Registry, Deps, Session}
use ninjacode_agent.Pipeline.Approval.{
  is_empty, remember_grant, decision_on, is_exact, ApprovalCheck,
}
use ninjacode_agent.Pipeline.Attempts.{run_tool_call-runs}
use ninjacode_agent.Pipeline.Batches.{tool_execution_batches, is_parallelizable_batch, resource_of}
use ninjacode_agent.Pipeline.Batches.Laws.{
  joined, tool_execution_batches-joined, IsBatch, is_parallelizable_batch-apart, IsRead,
}
use ninjacode_agent.Pipeline.Calls.{run_tool_call, execute_tool_calls}
use ninjacode_agent.Pipeline.Errors.{is_read_only, stays_read_only}
use ninjacode_agent.Pipeline.Events.{executions, runs}
use ninjacode_agent.Pipeline.Grants.{remember_grant-automatic}
use ninjacode_agent.Pipeline.Safety.{asked_breaker, IsAuthorized, run_tool_call-executes}
use ninjacode_agent.Pipeline.ShellTool.{
  shell_check, ShellArguments, run_shell-danger, run_shell_tool, IsApproved, IsHeld,
}
use ninjacode_agent.Pipeline.Turn.{execute_tool_calls-order}
use ninjacode_agent.Prelude.{
  All, ℕ, ◌+◌, ◌≤◌, String, ◌≡◌, refl, sym, ◌∙◌, ◌≢◌, ◌⊎◌, Bool, true, false, not, ◌||◌, none, some,
  List, [], ◌∷◌, map, arith,
}
use ninjacode_agent.Prelude.Maps.{add, get, delete}
use ninjacode_agent.Prelude.Results.{ok}
use ninjacode_agent.Prelude.Texts.{member, Text, text_eq, starts_with, trim, codes, includes}
use ninjacode_agent.Shell.Danger.{classify_shell_danger}
use ninjacode_agent.Shell.Grantable.{is_non_grantable_shell_command}
use ninjacode_agent.Shell.Rules.{danger, has_rule, or_else, fine}
use ninjacode_agent.Shell.Scan.{canonicalize_shell_command}

abbrev calm : {A : Type 0} → Deps ℕ A
calm = record {
  now = λ w. w;
  is_aborted = λ w. false;
  is_abort_error = λ thrown. false;
  is_truncated = λ args. false;
  validate = λ tool args. none;
  has_handler = true;
  parallel_tool_reads = true;
  get_state = λ w. running;
  set_state = λ state w. w;
  ask = λ request w. (w + 1, ok (record { approved = true; remember = true }));
  run_hooks = λ event tc w. (w, ok []);
  execute = λ tool args w. (w + 1, ok (codes "done"));
  sleep = λ ms w. (w + ms, none);
  archive = λ output w. (w, ok none);
  on_modified_files = λ tool w. w;
  post_edit_diagnostics = λ output w. (w, none);
}

abbrev asking : PermissionPolicy
asking = record {
  mode = balanced;
  allowlist = none;
  denylist = none;
  grants = some (codes "run_shell:ls" ∷ []);
}

abbrev start : {A : Type 0} → Session ℕ A
start = record { world = 0; permissions = asking; breaker = new 3 none; events = [] }

abbrev read_file : Tool Text
read_file = record {
  name = codes "read_file";
  risk = read_only;
  target = λ path. some path;
  risk_for = none;
  grant_scopes = none;
  grant_policy = none;
  retry_policy = some (record { idempotent = true; max_attempts = none });
  schema_retry = none;
}

abbrev edit_file : Tool Text
edit_file = record read_file { name = codes "edit_file"; risk = write; retry_policy = none }

abbrev tools : Registry Text
tools = (codes "read_file", read_file) ∷ (codes "edit_file", edit_file) ∷ []

abbrev read_of : String → String → ToolCall Text
read_of id path = record { id = codes id; name = codes "read_file"; arguments = codes path }

abbrev edit_of : String → String → ToolCall Text
edit_of id path = record { id = codes id; name = codes "edit_file"; arguments = codes path }

abbrev calls : List (ToolCall Text)
calls = read_of "1" "a.ts" ∷ read_of "2" "b.ts" ∷ read_of "3" "./a.ts" ∷ edit_of "4" "a.ts" ∷ []

batches_of_calls :
    tool_execution_batches tools calls true
    ≡ (read_of "1" "a.ts" ∷ read_of "2" "b.ts" ∷ [])
      ∷ (read_of "3" "./a.ts" ∷ [])
      ∷ (edit_of "4" "a.ts" ∷ [])
      ∷ []
unfolding tool_execution_batches get text_eq member add trim
batches_of_calls = refl

ran_once : runs ((run_tool_call calm tools (edit_of "4" "a.ts") start).0) ≡ 1
unfolding run_tool_call executions get new text_eq evaluate member
ran_once = refl

one_is_not_zero : {n : ℕ} → n ≡ 1 → n ≢ 0
one_is_not_zero h e = omega arith

run_tool_call-executes_example :
    ((is_open 0 (codes "edit_file") (new 3 none)).1 ≡ false)
    × (tool : Tool Text) × (get (codes "edit_file") tools ≡ some tool)
    × IsAuthorized calm (edit_of "4" "a.ts") (asked_breaker calm (edit_of "4" "a.ts") start) tool
unfolding executions
run_tool_call-executes_example =
    run_tool_call-executes calm tools (edit_of "4" "a.ts") start (one_is_not_zero ran_once)

found_read_file : get (codes "read_file") tools ≡ some read_file
unfolding get text_eq
found_read_file = refl

run_tool_call-runs_example :
    runs ((run_tool_call calm tools (read_of "1" "a.ts") start).0) ≤ runs (start {A = Text}) + 3
unfolding is_read_only stays_read_only executions
run_tool_call-runs_example =
    run_tool_call-runs calm tools (read_of "1" "a.ts") start read_file found_read_file

abbrev done_with : Bool → ToolCall Text → ToolInvocation Text
done_with ran tc = record {
  tool_call = tc;
  output = codes "done";
  approved = ran;
  error = none;
  artifact_id = none;
  classified = none;
}

turn_ran :
    (execute_tool_calls calm tools (read_of "1" "a.ts" ∷ edit_of "4" "a.ts" ∷ []) start).1
    ≡ ok (done_with true (read_of "1" "a.ts") ∷ done_with true (edit_of "4" "a.ts") ∷ [])
unfolding execute_tool_calls get text_eq member new evaluate delete
turn_ran = refl

execute_tool_calls-order_example :
    map
      (λ (i : ToolInvocation Text). i.tool_call)
      (done_with true (read_of "1" "a.ts") ∷ done_with true (edit_of "4" "a.ts") ∷ [])
    ≡ read_of "1" "a.ts" ∷ edit_of "4" "a.ts" ∷ []
execute_tool_calls-order_example =
    execute_tool_calls-order calm tools (read_of "1" "a.ts" ∷ edit_of "4" "a.ts" ∷ []) start
      (done_with true (read_of "1" "a.ts") ∷ done_with true (edit_of "4" "a.ts") ∷ []) turn_ran

tool_execution_batches-joined_example :
    (joined (tool_execution_batches tools calls true) ≡ calls)
    × All (IsBatch tools) (tool_execution_batches tools calls true)
tool_execution_batches-joined_example = tool_execution_batches-joined tools calls true

two_reads : is_parallelizable_batch tools (read_of "1" "a.ts" ∷ read_of "2" "b.ts" ∷ []) ≡ true
unfolding is_parallelizable_batch get text_eq member add trim
two_reads = refl

is_parallelizable_batch-apart_example :
    IsRead tools (read_of "1" "a.ts")
    × IsRead tools (read_of "2" "b.ts")
    × (resource_of tools (read_of "1" "a.ts") ≢ resource_of tools (read_of "2" "b.ts"))
is_parallelizable_batch-apart_example =
    is_parallelizable_batch-apart tools [] [] [] (read_of "1" "a.ts") (read_of "2" "b.ts") two_reads

-- A call whose two command types are remembered.
abbrev build : ApprovalCheck Text
build = record {
  tool = edit_file;
  tc = edit_of "5" "make && npm test";
  target = codes "make && npm test";
  scopes = codes "make" ∷ codes "npm test" ∷ [];
  grant_policy = scoped;
  risk = shell;
}

build_covers :
    (is_exact build.grant_policy || (is_empty build.scopes || not (is_destructive build.risk)))
    ≡ true
unfolding is_exact is_empty is_destructive
build_covers = refl

remember_grant-automatic_example :
    (is_never scoped ≡ false
      → is_automatic (decision_on build (remember_grant build true asking))
        ≡ not (listed none (codes "edit_file")))
    × (is_never scoped ≡ true → remember_grant build true asking ≡ asking)
remember_grant-automatic_example = remember_grant-automatic build asking build_covers

abbrev sudo : ToolCall ShellArguments
sudo = record {
  id = codes "6";
  name = codes "run_shell";
  arguments = record { command = codes "sudo a"; network_access = false };
}

abbrev shells : Registry ShellArguments
shells = (codes "run_shell", run_shell_tool) ∷ []

found_shell : get (codes "run_shell") shells ≡ some run_shell_tool
unfolding get text_eq
found_shell = refl

sudo_is_risky :
    classify_shell_danger (canonicalize_shell_command (codes "sudo a"))
    ≡ danger (codes "runs with elevated privileges")
unfolding classify_shell_danger text_eq trim or_else member get starts_with has_rule includes
    canonicalize_shell_command
sudo_is_risky = refl

danger_ne : (reason : Text) → danger reason ≢ fine
danger_ne reason = ground arith

sudo_ran : runs ((run_tool_call calm shells sudo start).0) ≡ 1
unfolding run_tool_call executions get new text_eq evaluate member classify_shell_danger trim
    or_else run_shell_tool is_non_grantable_shell_command starts_with has_rule includes
    canonicalize_shell_command
sudo_ran = refl

run_shell-danger_example :
    IsHeld (shell_check sudo) asking ⊎ IsApproved calm (shell_check sudo) start
unfolding executions
run_shell-danger_example =
    run_shell-danger calm shells sudo start found_shell
      (λ e. danger_ne (codes "runs with elevated privileges") (sym sudo_is_risky ∙ e))
      (one_is_not_zero sudo_ran)
