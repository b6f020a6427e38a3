-- ===== src/Lib.antt =====
-- A verification library for ninjacode-agent, an agent that edits code with the help of language
-- models. It models the parts that decide: what may run, what is retried, what is paid for, which
-- phase a run is in, and which worker owns a job.
--
-- How the parts interact in the program: a turn of the agent (packages/core/src/agentTurn.ts) asks
-- a provider through the retry wrapper, pays for the answer in the session budget, and runs the
-- tool calls in it. Before a call the permission engine is asked; for a shell command it is given
-- the scopes and the danger that the shell modules compute. The circuit breaker turns off a tool
-- that keeps failing, and the phase policy looks at the results of a turn and moves the run from
-- exploring to executing, verifying and recovering. The tool pipeline is where breaker, permission
-- engine, approval handler, hooks and tools meet. The cloud worker runs whole sessions as jobs
-- from a queue of files that several processes share. An answer without tool calls is
-- completed, sent on or refused, and the history is put in order before a request. The pipeline is
-- modelled on top of the models of the breaker, the permission engine, the shell modules and, for
-- the arguments of a call, the schemas, and
-- the completion on top of that of the phase policy; the other parts stand by themselves.
--
-- Files and sources:
-- - Prelude: texts, maps, lists, results and the Boolean tests that the others share.
-- - Breaker: `ToolCircuitBreaker` of packages/core/src/reliability.ts (isOpen, recordSuccess,
--   recordFailure, reset, disabledTools). Breaker/Spec is a machine of three states for one tool.
-- - Retry: `withRetry` and `retry` of the same file, with packages/providers/src/gatewayErrors.ts.
-- - Budget: `BudgetTracker` of the same file (constructor, add, check).
-- - Permissions: packages/core/src/permissions.ts (update, grant, evaluate).
-- - Cloud/Json, Cloud/Contract: apps/cloud-worker/src/contract.ts, from a JSON value to a job, and
--   in Cloud/Contract/Print the way back.
-- - Cloud/Locks, Cloud/Queue: apps/cloud-worker/src/filesystemQueue.ts (enqueue, claim,
--   markRunning, heartbeat, succeed, fail and their lock files). Cloud/Queue/Machine is the state
--   machine of one job, Cloud/Queue/Operations the sequences of operations on a store.
-- - Shell/Scan, Shell/Parse, Shell/Grantable: packages/tools/src/shellParse.ts and shellScope.ts.
-- - Shell/Rules, Shell/Danger: packages/tools/src/shellDanger.ts.
-- - Phase, Phase/Reads, Phase/Moves, Phase/Turn: packages/core/src/phasePolicy.ts, and in
--   Phase/Budgets the caller `adaptiveGuidance` of packages/core/src/agentTurn.ts.
-- - Pipeline, Pipeline/Approval, Pipeline/Batches: packages/core/src/toolPipelineHelpers.ts;
--   Pipeline/Errors: packages/core/src/toolErrors.ts; Pipeline/Execution, Pipeline/Calls:
--   packages/core/src/toolPipeline.ts; Pipeline/ShellTool: the tool `run_shell` of
--   packages/tools/src/shell.ts, as far as the pipeline asks it. Pipeline/Events, Pipeline/Safety,
--   Pipeline/Attempts, Pipeline/Order, Pipeline/Turn and Pipeline/Grants hold proofs.
-- - History: packages/core/src/toolHistory.ts (normalizeToolHistory, isValidToolChain,
--   alignCompactionStart).
-- - Completion: handleCompletionWithoutTools of packages/core/src/agentTurnCompletion.ts, which calls
--   the phase policy; Completion/Loops: evaluateToolLoop of the same file.
-- - Compaction: the limits, the gate and the trigger of packages/core/src/compactionGate.ts.
-- - Schema, Schema/Rules, Schema/Validate: validateToolArguments of packages/core/src/toolErrors.ts,
--   with proofs in Schema/Parts, Schema/Branches and Schema/Laws;
--   Pipeline/Arguments: the pipeline with it. Elsewhere the validation is an argument of the pipeline.
--
-- Conventions. A function keeps its source's name in lower case with underscores. A method of a
-- class takes the state and returns the new one. A text is the list of its UTF-16 code units;
-- `toLowerCase` is modelled on ASCII only. Times are whole milliseconds. Costs are counted in units
-- that make the two cache multipliers whole, and waits in 1/5000 of a millisecond, so that no
-- rounding of floating point numbers is modelled; the limits of a compaction are fractions of a
-- window, taken exactly and rounded once. A number that comes from outside may be negative
-- or not finite. Scales of the exploration budget are thousandths. Map and Set are lists of
-- entries in the order of insertion.
--
-- From outside the program come, as arguments: the clock, `Date.parse`, `randomUUID`, what an
-- attempt of a provider gives, what another process does to a lock file and when, and what the
-- regular expressions of the phase policy find in a task or a command. An operation of the queue is
-- atomic but for its lock files. The pipeline works on a state of the world that is an argument,
-- with the tools, hooks, approval handler, abort signal and archive as functions on it; the calls
-- of one parallel batch run whole and in order, one of the interleavings that may happen, and the
-- batch throws what the first of its calls throws, once all of them have run.
--
-- Fuel and bounds: the retry loop runs on the attempts left, one more than the retries; so
-- do the attempts of a tool, of which there are as many as the tool allows; the
-- classification of a shell command runs on fuel five, since a shell's payload is entered at a
-- depth below four only and a wrapper at one below two. The validation of arguments runs on the
-- depths left, 33 at the start: one more than MAX_SCHEMA_DEPTH, so that with none left the source
-- gives up too. Every other loop is structural.
--
-- Not modelled: the user interfaces (apps/vscode, apps/cli, apps/acp-agent), the harness apps/bench,
-- the adapters to HTTP services in packages/providers, the tools that act on files, git and the
-- network, sessions on disk, prompts, hooks and telemetry, which are input and output around the
-- parts above; and the summary that a compaction asks for, the stall guard of a request and the run
-- loop. In Schema the equality of JSON values, the bound on patterns, the matching of regular
-- expressions and the arithmetic of numbers are arguments.
-- Messages for people are data where they only repeat what led to them.
pub mod Prelude
pub mod Breaker
pub mod Retry
pub mod Budget
pub mod Permissions
pub mod Cloud
pub mod Shell
pub mod Phase
pub mod Schema
pub mod Pipeline
pub mod History
pub mod Completion
pub mod Compaction
