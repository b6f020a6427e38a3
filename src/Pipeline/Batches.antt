-- ===== src/Pipeline/Batches.antt =====
-- packages/core/src/toolPipelineHelpers.ts: which calls of a turn may overlap.
pub mod Laws
use ninjacode_agent.Pipeline.{ToolCall, Tool, Registry}
use ninjacode_agent.Pipeline.Errors.{is_read_only}
use ninjacode_agent.Prelude.{
  get_or, ◌==◌, leb, if◌then◌else◌, length, ℕ, Bool, true, false, not, ◌&&◌, ◌||◌, Option, none,
  some, List, [], ◌∷◌, ◌++◌, map,
}
use ninjacode_agent.Prelude.Maps.{add, get}
use ninjacode_agent.Prelude.Texts.{member, Text, trim, codes}

unfoldable pub unclassifiable_target : Text
unclassifiable_target = codes "<unclassifiable>"

abbrev pub parallel_read_tools : List Text
parallel_read_tools =
    map codes ("read_file" ∷ "list_dir" ∷ "glob" ∷ "grep" ∷ "search_codebase" ∷ [])

abbrev path_read_tools : List Text
path_read_tools = map codes ("read_file" ∷ "list_dir" ∷ [])

abbrev pub max_parallel_reads : ℕ
max_parallel_reads = 4

-- `.replaceAll("\\", "/").replace(/\/+/g, "/")`; the flag tells that a slash came just before.
unfoldable pub single_slashes : Bool → Text → Text
single_slashes after [] = []
single_slashes after (c ∷ s) =
    if c == b'/' || c == b'\\'
    then (if after then single_slashes true s else b'/' ∷ single_slashes true s)
    else c ∷ single_slashes false s

-- `.replace(/^\.\//, "")`
unfoldable pub without_dot_slash : Text → Text
without_dot_slash (c ∷ d ∷ s) = if c == b'.' && d == b'/' then s else c ∷ d ∷ s
without_dot_slash s = s

-- The locals of `toolExecutionBatches`.
pub record BatchState (A : Type 0) : Type 0 where
  pub batches : List (List (ToolCall A))
  pub pending : List (ToolCall A)

module _ {A : Type 0} where
  unfoldable pub safe_target : Tool A → A → Text
  unfolding unclassifiable_target
  safe_target tool args = get_or (tool.target args) unclassifiable_target

  unfoldable pub normalized_read_target : Tool A → ToolCall A → Text
  unfolding safe_target single_slashes without_dot_slash
  normalized_read_target tool tc =
      if not (member tc.name path_read_tools)
      then codes "query:" ++ tc.id
      else without_dot_slash (single_slashes false (trim (safe_target tool tc.arguments)))

  -- The resource of a call that may overlap with others, none for every other call.
  unfoldable pub resource_of : Registry A → ToolCall A → Option Text
  unfolding is_read_only normalized_read_target
  resource_of registry tc = elim (get tc.name registry) [
    | none ↦ none
    | some tool ↦
        if not (is_read_only tool.risk) || not (member tc.name parallel_read_tools)
        then none
        else some (normalized_read_target tool tc)
  ]

  -- The loop of `isParallelizableBatch`, with the set of the resources so far.
  unfoldable pub is_parallelizable_after : Registry A → List Text → List (ToolCall A) → Bool
  unfolding resource_of
  is_parallelizable_after registry resources [] = true
  is_parallelizable_after registry resources (tc ∷ calls) = elim (resource_of registry tc) [
    | none ↦ false
    | some resource ↦
        not (member resource resources)
        && is_parallelizable_after registry (add resource resources) calls
  ]

  unfoldable pub is_parallelizable_batch : Registry A → List (ToolCall A) → Bool
  unfolding is_parallelizable_after
  is_parallelizable_batch registry calls = is_parallelizable_after registry [] calls

  unfoldable pub flushed : List (List (ToolCall A)) → List (ToolCall A) → List (List (ToolCall A))
  flushed batches [] = batches
  flushed batches (call ∷ pending) = batches ++ (call ∷ pending) ∷ []

  -- What the loop does with a call: it joins those pending, or these are flushed and it is pending
  -- itself, or it stands alone.
  unfoldable pub joins : BatchState A → ToolCall A → BatchState A
  joins st call = record st { pending = st.pending ++ call ∷ [] }

  unfoldable pub starts : BatchState A → ToolCall A → BatchState A
  unfolding flushed
  starts st call = record { batches = flushed st.batches st.pending; pending = call ∷ [] }

  unfoldable pub stands_alone : BatchState A → ToolCall A → BatchState A
  unfolding flushed
  stands_alone st call = record {
    batches = flushed st.batches st.pending ++ (call ∷ []) ∷ [];
    pending = [];
  }

  unfoldable pub may_join : Registry A → BatchState A → ToolCall A → Bool
  unfolding is_parallelizable_batch
  may_join registry st call =
      let candidate = st.pending ++ call ∷ [] in
      leb (length candidate) max_parallel_reads && is_parallelizable_batch registry candidate

  -- The body of the loop over the calls.
  unfoldable pub batch_step : Registry A → BatchState A → ToolCall A → BatchState A
  unfolding joins starts stands_alone may_join is_parallelizable_batch
  batch_step registry st call =
      if may_join registry st call
      then joins st call
      else if is_parallelizable_batch registry (call ∷ [])
      then starts st call
      else stands_alone st call

  unfoldable pub batches_from : Registry A → BatchState A → List (ToolCall A) → BatchState A
  unfolding batch_step
  batches_from registry st [] = st
  batches_from registry st (call ∷ calls) =
      batches_from registry (batch_step registry st call) calls

  unfoldable pub tool_execution_batches :
      Registry A → List (ToolCall A) → Bool → List (List (ToolCall A))
  unfolding batches_from flushed
  tool_execution_batches registry calls parallel =
      if not parallel
      then map (λ call. call ∷ []) calls
      else let st = batches_from registry (record { batches = []; pending = [] }) calls in
        flushed st.batches st.pending
