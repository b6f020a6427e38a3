-- ===== src/History/Cuts.antt =====
-- toolHistory.ts, `alignCompactionStart`: where a history may be cut.
use ninjacode_agent.History.{
  align_tool_compaction_start, settle, truthy, is_tool, is_valid_tool_chain, opens_before,
  on_over_tools, Call, align_compaction_start, back_over_tools, Message, opens_block, is_valid_from,
  is_tool_at,
}
use ninjacode_agent.History.Idempotence.{opens-not-tool}
use ninjacode_agent.Prelude.{
  if-holds, ◌==◌, is_some, leb, if◌then◌else◌, drop, length, ℕ, zero, suc, ◌+◌, ◌-◌, ◌≤◌, ◌≡◌, refl,
  sym, subst, ◌≢◌, Bool, true, false, not, ◌||◌, Option, none, some, List, [], ◌∷◌, map, arith,
}
use ninjacode_agent.Prelude.Texts.{Text}

is_tool_at-drop-nil :
    (i : ℕ) (messages : List Message) → length messages ≤ i → is_tool_at i messages ≡ false
unfolding is_tool_at
is_tool_at-drop-nil i [] h = refl
is_tool_at-drop-nil zero (m ∷ messages) h = ground arith
is_tool_at-drop-nil (suc i) (m ∷ messages) h = is_tool_at-drop-nil i messages (omega arith)

opens_before-opener :
    (i : ℕ) (messages : List Message)
    → opens_before (suc i) messages ≡ true
    → is_tool_at i messages ≡ false
unfolding opens_before is_tool_at
opens_before-opener i [] h = refl
opens_before-opener zero (m ∷ messages) h = opens-not-tool m h
opens_before-opener (suc i) (m ∷ messages) h = opens_before-opener i messages h

opens_before-not_tool :
    (i : ℕ) (messages : List Message)
    → opens_before i messages ≡ true
    → is_tool_at (i - 1) messages ≡ false
unfolding opens_before
opens_before-not_tool zero messages h = ground arith
opens_before-not_tool (suc i) messages h =
    subst (λ k. is_tool_at k messages ≡ false) (omega arith) (opens_before-opener i messages h)

on_over_tools-not_tool :
    (messages : List Message) (left start : ℕ)
    → length messages ≤ left + start
    → is_tool_at (on_over_tools messages left start) messages ≡ false
unfolding on_over_tools
on_over_tools-not_tool messages zero start h = is_tool_at-drop-nil start messages (omega arith)
on_over_tools-not_tool messages (suc left) start h =
    if-holds (λ i. is_tool_at i messages ≡ false) (is_tool_at start messages)
      (on_over_tools messages left (start + 1)) start
      (λ _. on_over_tools-not_tool messages left (start + 1) (omega arith)) (λ e. e)

align_compaction_start-not_tool :
    (messages : List Message) (start : ℕ)
    → start ≢ 0
    → is_tool_at (align_compaction_start messages start) messages ≡ false
unfolding align_compaction_start align_tool_compaction_start
align_compaction_start-not_tool messages start inside =
    let i = back_over_tools messages start in
    let on = on_over_tools messages (length messages - start) start in
    let goal = λ (i : ℕ). is_tool_at i messages ≡ false in
    if-holds goal (start == 0 || leb (length messages) start) start
      (if not (is_tool_at start messages)
        then start
        else align_tool_compaction_start messages start)
      (λ outside. is_tool_at-drop-nil start messages (ground arith))
      (λ _.
        if-holds goal (not (is_tool_at start messages)) start
          (align_tool_compaction_start messages start) (λ plain. ground arith)
          (λ _.
            if-holds goal (opens_before i messages) (i - 1) on (opens_before-not_tool i messages)
              (λ _. on_over_tools-not_tool messages (length messages - start) start (omega arith))))

-- Behind a message of a valid chain, the chain is valid from the ids that are open there.
is_valid_from-tail :
    (pending : Option (List Text)) (m : Message) (messages : List Message)
    → is_valid_from pending (m ∷ messages) ≡ true
    → (later : Option (List Text)) × (is_valid_from later messages ≡ true)
unfolding is_valid_from
is_valid_from-tail pending m messages h =
    by_kind (opens_block m) (is_tool m.role) (settle pending (truthy m.tool_call_id)) h
  where
    by_kind :
        (opens result : Bool) (settled : Option (Option (List Text)))
        → (if opens
            then is_valid_from (some (map (λ (c : Call). c.id) m.tool_calls)) messages
            else if result
            then elim settled [ none ↦ false | some left ↦ is_valid_from left messages ]
            else if is_some pending
            then false
            else is_valid_from none messages)
          ≡ true
        → (later : Option (List Text)) × (is_valid_from later messages ≡ true)
    by_kind true result settled e = (some (map (λ (c : Call). c.id) m.tool_calls), e)
    by_kind false true none e = ground arith
    by_kind false true (some left) e = (left, e)
    by_kind false false settled e = (none, ground arith)

is_valid_from-drop :
    (i : ℕ) (pending : Option (List Text)) (messages : List Message)
    → is_valid_from pending messages ≡ true
    → (later : Option (List Text)) × (is_valid_from later (drop i messages) ≡ true)
is_valid_from-drop zero pending messages h = (pending, h)
is_valid_from-drop (suc i) pending [] h = (pending, h)
is_valid_from-drop (suc i) pending (m ∷ messages) h =
    let (later, rest) = is_valid_from-tail pending m messages h in
    is_valid_from-drop i later messages rest

-- Where no result comes first, the ids that were open do not matter.
is_valid_from-fresh :
    (i : ℕ) (pending : Option (List Text)) (messages : List Message)
    → is_tool_at i messages ≡ false
    → is_valid_from pending (drop i messages) ≡ true
    → is_valid_from none (drop i messages) ≡ true
unfolding is_valid_from is_tool_at
is_valid_from-fresh zero pending [] t h = refl
is_valid_from-fresh (suc i) pending [] t h = refl
is_valid_from-fresh zero pending (m ∷ messages) t h = ground arith
is_valid_from-fresh (suc i) pending (m ∷ messages) t h = is_valid_from-fresh i pending messages t h

align-zero : (messages : List Message) → align_compaction_start messages 0 ≡ 0
unfolding align_compaction_start
align-zero messages = ground arith

-- A valid chain that is cut at an aligned start stays valid: no block is split from its results.
pub align_compaction_start-valid :
    (messages : List Message) (start : ℕ)
    → is_valid_tool_chain messages ≡ true
    → is_valid_tool_chain (drop (align_compaction_start messages start) messages) ≡ true
unfolding is_valid_tool_chain
align_compaction_start-valid messages zero valid =
    subst (λ i. is_valid_from none (drop i messages) ≡ true) (sym (align-zero messages)) valid
align_compaction_start-valid messages (suc start) valid =
    let i = align_compaction_start messages (suc start) in
    let (pending, rest) = is_valid_from-drop i none messages valid in
    is_valid_from-fresh i pending messages
      (align_compaction_start-not_tool messages (suc start) (omega arith)) rest
