-- ===== src/History.antt =====
-- packages/core/src/toolHistory.ts: tool calls and their results in the history that a provider is
-- sent. Of a message the parts stand here that the file reads, with the content.
pub mod Validity
pub mod Idempotence
pub mod Cuts
mod Tests
use ninjacode_agent.Prelude.{
  get_or, ◌==◌, is_some, leb, if◌then◌else◌, length, ℕ, zero, suc, ◌+◌, ◌-◌, Bool, true, false, not,
  ◌&&◌, ◌||◌, Option, none, some, List, [], ◌∷◌, ◌++◌, map,
}
use ninjacode_agent.Prelude.Maps.{remove}
use ninjacode_agent.Prelude.Texts.{member, Text, text_eq, codes}

pub data Role : Type 0 where
  system_role user_role assistant_role tool_role : Role

pub record Call : Type 0 where
  pub id : Text
  pub name : Text

-- An absent list of calls is empty; the code asks for its length only.
pub record Message : Type 0 where
  pub role : Role
  pub content : Text
  pub tool_calls : List Call
  pub tool_call_id : Option Text
  pub name : Option Text

unfoldable pub is_assistant : Role → Bool
is_assistant assistant_role = true
is_assistant _ = false

unfoldable pub is_tool : Role → Bool
is_tool tool_role = true
is_tool _ = false

unfoldable pub has_calls : List Call → Bool
has_calls [] = false
has_calls (c ∷ calls) = true

-- `m.role === "assistant" && m.toolCalls?.length`
unfoldable pub opens_block : Message → Bool
unfolding is_assistant has_calls
opens_block m = is_assistant m.role && has_calls m.tool_calls

-- The messages at the front that are tool messages.
unfoldable pub leading_tools : List Message → List Message
unfolding is_tool
leading_tools [] = []
leading_tools (m ∷ messages) = if is_tool m.role then m ∷ leading_tools messages else []

-- A text, if it is there and not empty.
unfoldable pub truthy : Option Text → Option Text
truthy none = none
truthy (some []) = none
truthy (some (c ∷ s)) = some (c ∷ s)

-- Whether the message is a result for the id.
unfoldable pub answers : Text → Message → Bool
unfolding truthy
answers id t = elim (truthy t.tool_call_id) [ none ↦ false | some key ↦ text_eq key id ]

-- `byId.get(id)`: of several results for one id the last counts.
unfoldable pub by_id : Text → List Message → Option Message
unfolding answers
by_id id [] = none
by_id id (t ∷ tools) = elim (by_id id tools) [
  | some later ↦ some later
  | none ↦ if answers id t then some t else none
]

unfoldable pub placeholder : Call → Message
placeholder tc = record {
  role = tool_role;
  content = codes "[tool result unavailable — recovered from incomplete session]";
  tool_calls = [];
  tool_call_id = some tc.id;
  name = some tc.name;
}

unfoldable pub result_for : List Message → Call → Message
unfolding by_id placeholder
result_for tools tc = get_or (by_id tc.id tools) (placeholder tc)

-- The loop of `normalizeToolHistory`, with the number of messages that `i = j - 1` passes over.
unfoldable pub normalize_from : ℕ → List Message → List Message
unfolding opens_block leading_tools result_for is_tool
normalize_from n [] = []
normalize_from (suc n) (m ∷ messages) = normalize_from n messages
normalize_from zero (m ∷ messages) =
    let tools = leading_tools messages in
    let after_block = normalize_from (length tools) messages in
    let next = normalize_from zero messages in
    if opens_block m
    then m ∷ map (result_for tools) m.tool_calls ++ after_block
    else if is_tool m.role
    then next
    else m ∷ next

unfoldable pub normalize_tool_history : List Message → List Message
unfolding normalize_from
normalize_tool_history history = normalize_from 0 history

-- `open` in `isValidToolChain`: the ids without a result yet, none for null. A list stands for the
-- set, with copies of an id counting once.
unfoldable pub closed_if_empty : List Text → Option (List Text)
closed_if_empty [] = none
closed_if_empty (id ∷ ids) = some (id ∷ ids)

-- What a tool message leaves of the open ids, none if it belongs to none of them.
unfoldable pub settle : Option (List Text) → Option Text → Option (Option (List Text))
unfolding closed_if_empty
settle none id = none
settle (some ids) none = none
settle (some ids) (some id) = if member id ids then some (closed_if_empty (remove id ids)) else none

unfoldable pub is_valid_from : Option (List Text) → List Message → Bool
unfolding opens_block settle truthy is_tool
is_valid_from pending [] = not (is_some pending)
is_valid_from pending (m ∷ messages) =
    if opens_block m
    then is_valid_from (some (map (λ (c : Call). c.id) m.tool_calls)) messages
    else if is_tool m.role
    then elim (settle pending (truthy m.tool_call_id)) [
      | none ↦ false
      | some left ↦ is_valid_from left messages
    ]
    else if is_some pending
    then false
    else is_valid_from none messages

unfoldable pub is_valid_tool_chain : List Message → Bool
unfolding is_valid_from
is_valid_tool_chain messages = is_valid_from none messages

-- `messages[i]?.role === "tool"`
unfoldable pub is_tool_at : ℕ → List Message → Bool
unfolding is_tool
is_tool_at i [] = false
is_tool_at zero (m ∷ messages) = is_tool m.role
is_tool_at (suc i) (m ∷ messages) = is_tool_at i messages

-- `i > 0 && prior?.role === "assistant" && prior.toolCalls?.length`, where prior is at `i - 1`.
unfoldable pub opens_before : ℕ → List Message → Bool
unfolding opens_block
opens_before zero messages = false
opens_before (suc i) [] = false
opens_before (suc zero) (m ∷ messages) = opens_block m
opens_before (suc (suc i)) (m ∷ messages) = opens_before (suc i) messages

-- `while (i > 0 && messages[i - 1]?.role === "tool") i--`
unfoldable pub back_over_tools : List Message → ℕ → ℕ
unfolding is_tool_at
back_over_tools messages zero = zero
back_over_tools messages (suc i) =
    if is_tool_at i messages then back_over_tools messages i else suc i

-- `while (start < messages.length && messages[start]?.role === "tool") start++`, on the number of
-- messages that are left.
unfoldable pub on_over_tools : List Message → ℕ → ℕ → ℕ
unfolding is_tool_at
on_over_tools messages zero start = start
on_over_tools messages (suc left) start =
    if is_tool_at start messages then on_over_tools messages left (start + 1) else start

unfoldable pub align_tool_compaction_start : List Message → ℕ → ℕ
unfolding back_over_tools opens_before on_over_tools
align_tool_compaction_start messages start =
    let i = back_over_tools messages start in
    if opens_before i messages
    then i - 1
    else on_over_tools messages (length messages - start) start

unfoldable pub align_compaction_start : List Message → ℕ → ℕ
unfolding is_tool_at align_tool_compaction_start
align_compaction_start messages start =
    if start == 0 || leb (length messages) start
    then start
    else if not (is_tool_at start messages)
    then start
    else align_tool_compaction_start messages start
