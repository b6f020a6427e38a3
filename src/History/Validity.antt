-- ===== src/History/Validity.antt =====
-- toolHistory.ts: what `normalizeToolHistory` returns is a valid chain.
use ninjacode_agent.History.{
  answers, settle, truthy, system_role, Role, by_id, result_for, is_tool, user_role,
  is_valid_tool_chain, normalize_from, is_assistant, Call, tool_role, Message, leading_tools,
  opens_block, is_valid_from, has_calls, assistant_role, normalize_tool_history, closed_if_empty,
  placeholder,
}
use ninjacode_agent.Prelude.{
  some_inj, get_or, &&_both, Bool-cases, if◌then◌else◌, All, length, ◌≡◌, refl, sym, ap, subst, ◌∙◌,
  inl, inr, Bool, true, false, Option, none, some, List, [], ◌∷◌, ◌++◌, map, arith,
}
use ninjacode_agent.Prelude.Maps.{remove}
use ninjacode_agent.Prelude.Texts.{member, text_eq_iff, Text, text_eq_refl, text_eq, text_eq→≡}

-- The ids of the calls are not empty and differ.
abbrev pub IsDistinct : List Call → Type 0
IsDistinct [] = Unit {0}
IsDistinct (c ∷ calls) =
    (truthy (some c.id) ≡ some c.id)
    × (member c.id (map (λ (d : Call). d.id) calls) ≡ false)
    × IsDistinct calls

abbrev pub HasDistinctCalls : List Message → Type 0
HasDistinctCalls messages = All (λ (m : Message). IsDistinct m.tool_calls) messages

-- A result for a call: a tool message with its id.
abbrev pub IsResult : Call → Message → Type 0
IsResult c t = (t.role ≡ tool_role) × (truthy t.tool_call_id ≡ some c.id)

is_tool_iff : (r : Role) → is_tool r ≡ true → r ≡ tool_role
unfolding is_tool
is_tool_iff r e = ground arith

pub leading_tools-AreTools :
    (messages : List Message) → All (λ (t : Message). t.role ≡ tool_role) (leading_tools messages)
unfolding leading_tools is_tool
leading_tools-AreTools [] = tt
leading_tools-AreTools (m ∷ messages) =
    by_role (is_tool m.role) refl (leading_tools-AreTools messages)
  where
    by_role :
        (b : Bool)
        → is_tool m.role ≡ b
        → All (λ (t : Message). t.role ≡ tool_role) (leading_tools messages)
        → All (λ (t : Message). t.role ≡ tool_role) (if b then m ∷ leading_tools messages else [])
    by_role true e h = (is_tool_iff m.role e, h)
    by_role false e h = tt

answers-truthy : (id : Text) (t : Message) → answers id t ≡ true → truthy t.tool_call_id ≡ some id
unfolding answers
answers-truthy id t e = by_key (truthy t.tool_call_id) refl e
  where
    by_key :
        (o : Option Text)
        → truthy t.tool_call_id ≡ o
        → elim o [ none ↦ false | some key ↦ text_eq key id ] ≡ true
        → truthy t.tool_call_id ≡ some id
    by_key none f h = ground arith
    by_key (some key) f h = f ∙ ap some (text_eq→≡ key id h)

by_id-IsResult :
    (c : Call) (tools : List Message) (t : Message)
    → All (λ (t : Message). t.role ≡ tool_role) tools
    → by_id c.id tools ≡ some t
    → IsResult c t
unfolding by_id answers
by_id-IsResult c [] t h e = ground arith
by_id-IsResult c (u ∷ tools) t (hu, h) e =
    by_later (by_id c.id tools) refl (λ later f. by_id-IsResult c tools later h f) e
  where
    by_later :
        (o : Option Message)
        → by_id c.id tools ≡ o
        → ((later : Message) → by_id c.id tools ≡ some later → IsResult c later)
        → elim o [ some later ↦ some later | none ↦ if answers c.id u then some u else none ]
          ≡ some t
        → IsResult c t
    by_later (some later) f deeper g = subst (IsResult c) (some_inj later t g) (deeper later f)
    by_later none f deeper g = by_answer (answers c.id u) refl g
      where
        by_answer :
            (b : Bool) → answers c.id u ≡ b → (if b then some u else none) ≡ some t → IsResult c t
        by_answer true a own = subst (IsResult c) (some_inj u t own) (hu, answers-truthy c.id u a)
        by_answer false a own = ground arith

pub result_for-IsResult :
    (tools : List Message) (c : Call)
    → truthy (some c.id) ≡ some c.id
    → All (λ (t : Message). t.role ≡ tool_role) tools
    → IsResult c (result_for tools c)
unfolding result_for placeholder
result_for-IsResult tools c k h = by_found (by_id c.id tools) refl
  where
    by_found : (o : Option Message) → by_id c.id tools ≡ o → IsResult c (get_or o (placeholder c))
    by_found none e = (refl, k)
    by_found (some t) e = by_id-IsResult c tools t h e

-- Results for the calls of a block close it.
map-ids-remove :
    (id : Text) (calls : List Call)
    → member id (map (λ (d : Call). d.id) calls) ≡ false
    → remove id (map (λ (d : Call). d.id) calls) ≡ map (λ (d : Call). d.id) calls
unfolding member remove
map-ids-remove id [] h = refl
map-ids-remove id (c ∷ calls) h =
    ground (arith, map-ids-remove id calls, text_eq_iff id c.id, text_eq_iff c.id id)

-- The id of the first open call is settled by its result.
settle-first :
    (c : Call) (calls : List Call) (t : Message)
    → member c.id (map (λ (d : Call). d.id) calls) ≡ false
    → IsResult c t
    → settle (some (c.id ∷ map (λ (d : Call). d.id) calls)) (truthy t.tool_call_id)
      ≡ some (closed_if_empty (map (λ (d : Call). d.id) calls))
unfolding settle member remove
settle-first c calls t new (_, key) =
    rw (key, text_eq_refl c.id, map-ids-remove c.id calls new) refl

results-close :
    (tools : List Message) (calls : List Call) (rest : List Message)
    → All (λ (t : Message). t.role ≡ tool_role) tools
    → IsDistinct calls
    → is_valid_from
        (closed_if_empty (map (λ (d : Call). d.id) calls))
        (map (result_for tools) calls ++ rest)
      ≡ is_valid_from none rest
unfolding is_valid_from closed_if_empty opens_block is_tool is_assistant
results-close tools [] rest h d = refl
results-close tools (c ∷ calls) rest h (k, new, d) =
    let (role, key) = result_for-IsResult tools c k h in
    rw (role, settle-first c calls (result_for tools c) new (role, key))
      (results-close tools calls rest h d)

-- The messages passed over are the tool messages that would be dropped.
pub normalize_from-skip :
    (messages : List Message)
    → normalize_from (length (leading_tools messages)) messages ≡ normalize_from 0 messages
unfolding normalize_from leading_tools opens_block is_assistant is_tool
normalize_from-skip [] = refl
normalize_from-skip (m ∷ messages) = by_role m.role refl (normalize_from-skip messages)
  where
    by_role :
        (r : Role)
        → m.role ≡ r
        → normalize_from (length (leading_tools messages)) messages ≡ normalize_from 0 messages
        → normalize_from (length (leading_tools (m ∷ messages))) (m ∷ messages)
          ≡ normalize_from 0 (m ∷ messages)
    by_role tool_role e h = rw e h
    by_role system_role e h = rw e refl
    by_role user_role e h = rw e refl
    by_role assistant_role e h = rw e refl

-- The three cases of one message.
pub normalize_from-block :
    (m : Message) (messages : List Message)
    → opens_block m ≡ true
    → normalize_from 0 (m ∷ messages)
      ≡ m ∷ map (result_for (leading_tools messages)) m.tool_calls ++ normalize_from 0 messages
unfolding normalize_from
normalize_from-block m messages e = rw (e, normalize_from-skip messages) refl

pub normalize_from-tool :
    (m : Message) (messages : List Message)
    → opens_block m ≡ false
    → is_tool m.role ≡ true
    → normalize_from 0 (m ∷ messages) ≡ normalize_from 0 messages
unfolding normalize_from
normalize_from-tool m messages e f = rw (e, f) refl

pub normalize_from-other :
    (m : Message) (messages : List Message)
    → opens_block m ≡ false
    → is_tool m.role ≡ false
    → normalize_from 0 (m ∷ messages) ≡ m ∷ normalize_from 0 messages
unfolding normalize_from
normalize_from-other m messages e f = rw (e, f) refl

pub opens_block-calls :
    (m : Message)
    → opens_block m ≡ true
    → closed_if_empty (map (λ (d : Call). d.id) m.tool_calls)
      ≡ some (map (λ (d : Call). d.id) m.tool_calls)
unfolding opens_block has_calls closed_if_empty
opens_block-calls m e = by_calls m.tool_calls ((&&_both (is_assistant m.role) _ e).1)
  where
    by_calls :
        (calls : List Call)
        → has_calls calls ≡ true
        → closed_if_empty (map (λ (d : Call). d.id) calls) ≡ some (map (λ (d : Call). d.id) calls)
    by_calls [] h = ground arith
    by_calls (c ∷ calls) h = refl

valid-block :
    (m : Message) (messages rest : List Message)
    → opens_block m ≡ true
    → IsDistinct m.tool_calls
    → is_valid_from none rest ≡ true
    → is_valid_from none (m ∷ map (result_for (leading_tools messages)) m.tool_calls ++ rest) ≡ true
unfolding is_valid_from
valid-block m messages rest e d h =
    rw
      (
        e,
        sym (opens_block-calls m e),
        results-close (leading_tools messages) m.tool_calls rest (leading_tools-AreTools messages)
            d,
      )
      h

-- Where the calls of every message have ids that are not empty and differ from each other, the
-- normalized history is a valid chain, whatever results it had: missing, orphaned, doubled or out of
-- order.
pub normalize_tool_history-valid :
    (history : List Message)
    → HasDistinctCalls history
    → is_valid_tool_chain (normalize_tool_history history) ≡ true
unfolding normalize_tool_history is_valid_tool_chain normalize_from is_valid_from
normalize_tool_history-valid [] d = refl
normalize_tool_history-valid (m ∷ history) (d, ds) =
    let rest = normalize_tool_history-valid history ds in
    elim (Bool-cases (opens_block m)) [
      | inl opens ↦
          subst (λ h. is_valid_from none h ≡ true) (sym (normalize_from-block m history opens))
            (valid-block m history (normalize_from 0 history) opens d rest)
      | inr plain ↦ elim (Bool-cases (is_tool m.role)) [
        | inl orphan ↦
            subst (λ h. is_valid_from none h ≡ true)
              (sym (normalize_from-tool m history plain orphan)) rest
        | inr stays ↦
            subst (λ h. is_valid_from none h ≡ true)
              (sym (normalize_from-other m history plain stays)) (rw (plain, stays) rest)
      ]
    ]
