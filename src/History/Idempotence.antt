-- ===== src/History/Idempotence.antt =====
-- toolHistory.ts: `normalizeToolHistory` keeps what is no result, and a second run changes nothing.
use mathlib.Core.Path.{ap₂}
use ninjacode_agent.History.{
  answers, truthy, by_id, result_for, is_tool, normalize_from, is_assistant, Call, tool_role,
  Message, leading_tools, opens_block, normalize_tool_history,
}
use ninjacode_agent.History.Validity.{
  leading_tools-AreTools, HasDistinctCalls, normalize_from-tool, normalize_from-block,
  result_for-IsResult, normalize_from-other, IsDistinct,
}
use ninjacode_agent.Prelude.{
  Bool-cases, All, keep, ◌≡◌, refl, sym, ap, subst, ◌∙◌, inl, inr, Bool, true, false, not, ◌||◌,
  none, some, List, [], ◌∷◌, ◌++◌, map, arith,
}
use ninjacode_agent.Prelude.Texts.{member, Text, text_eq_refl, text_eq}

abbrev AreTools : List Message → Type 0
AreTools messages = All (λ (t : Message). t.role ≡ tool_role) messages

abbrev ids : List Call → List Text
ids calls = map (λ (c : Call). c.id) calls

not_either : (a b : Bool) → (a || b) ≡ false → (a ≡ false) × (b ≡ false)
not_either a b h = ground arith

All-map {ℓ κ μ} :
    {X : Type ℓ} (P : X → Type κ) (Q : X → Type μ)
    → ((x : X) → P x → Q x)
    → (xs : List X) → All P xs
    → All Q xs
All-map P Q f [] h = tt
All-map P Q f (x ∷ xs) (p, h) = (f x p, All-map P Q f xs h)

map-All {ℓ κ} :
    {X : Type ℓ} {Y : Type κ} (f g : X → Y) (xs : List X)
    → All (λ x. f x ≡ g x) xs
    → map f xs ≡ map g xs
map-All f g [] h = refl
map-All f g (x ∷ xs) (e, h) = rw (e, map-All f g xs h) refl

module _ (tools : List Message) (are_tools : AreTools tools) where
  results-AreTools :
      (calls : List Call) → IsDistinct calls → AreTools (map (result_for tools) calls)
  results-AreTools [] d = tt
  results-AreTools (c ∷ calls) (k, _, d) =
      ((result_for-IsResult tools c k are_tools).0, results-AreTools calls d)

  -- A result answers the id of its own call alone.
  answers-result_for :
      (id : Text) (c : Call)
      → truthy (some c.id) ≡ some c.id
      → answers id (result_for tools c) ≡ text_eq c.id id
  unfolding answers
  answers-result_for id c k = rw (answers, (result_for-IsResult tools c k are_tools).1) refl

  by_id-results-none :
      (id : Text) (calls : List Call)
      → IsDistinct calls
      → member id (ids calls) ≡ false
      → by_id id (map (result_for tools) calls) ≡ none
  unfolding by_id member
  by_id-results-none id [] d h = refl
  by_id-results-none id (c ∷ calls) (k, _, d) h =
      let (apart, behind) = not_either (text_eq c.id id) (member id (ids calls)) h in
      rw (by_id-results-none id calls d behind, answers-result_for id c k, apart) refl

  -- Each call finds its own result again.
  by_id-results :
      (calls : List Call)
      → IsDistinct calls
      → All
          (λ (c : Call). by_id c.id (map (result_for tools) calls) ≡ some (result_for tools c))
          calls
  unfolding by_id
  by_id-results [] d = tt
  by_id-results (c ∷ calls) (k, new, d) = (
    rw (by_id-results-none c.id calls d new, answers-result_for c.id c k, text_eq_refl c.id) refl,
    All-map (λ (b : Call). by_id b.id (map (result_for tools) calls) ≡ some (result_for tools b)) _
        (λ b found. rw found refl) calls (by_id-results calls d),
  )

  results-stable :
      (calls : List Call)
      → IsDistinct calls
      → map (result_for (map (result_for tools) calls)) calls ≡ map (result_for tools) calls
  unfolding result_for
  results-stable calls d =
      map-All (result_for (map (result_for tools) calls)) (result_for tools) calls (
        All-map
          (λ (c : Call). by_id c.id (map (result_for tools) calls) ≡ some (result_for tools c)) _
          (λ c found. rw found refl) calls (by_id-results calls d))

normalize-tools :
    (tools rest : List Message)
    → AreTools tools
    → normalize_from 0 (tools ++ rest) ≡ normalize_from 0 rest
unfolding opens_block is_assistant is_tool
normalize-tools [] rest h = refl
normalize-tools (t ∷ tools) rest (role, h) =
    normalize_from-tool t (tools ++ rest) (rw role refl) (rw role refl)
    ∙ normalize-tools tools rest h

leading_tools-append :
    (tools rest : List Message)
    → AreTools tools
    → leading_tools rest ≡ []
    → leading_tools (tools ++ rest) ≡ tools
unfolding leading_tools is_tool
leading_tools-append [] rest h e = e
leading_tools-append (t ∷ tools) rest (role, h) e =
    rw (role, leading_tools-append tools rest h e) refl

pub opens-not-tool : (m : Message) → opens_block m ≡ true → is_tool m.role ≡ false
unfolding opens_block is_assistant is_tool
opens-not-tool m e = ground arith

-- One message at a time: a block, an orphan, or any other message.
normalize-cases :
    (P : List Message → List Message → Type 0)
    → P [] []
    → ((m : Message) (messages : List Message)
        → opens_block m ≡ true
        → P messages (normalize_from 0 messages)
        → P (m ∷ messages) (
            m ∷ map (result_for (leading_tools messages)) m.tool_calls
            ++ normalize_from 0 messages))
    → ((m : Message) (messages : List Message)
        → is_tool m.role ≡ true
        → P messages (normalize_from 0 messages)
        → P (m ∷ messages) (normalize_from 0 messages))
    → ((m : Message) (messages : List Message)
        → opens_block m ≡ false
        → is_tool m.role ≡ false
        → P messages (normalize_from 0 messages)
        → P (m ∷ messages) (m ∷ normalize_from 0 messages))
    → (history : List Message) → P history (normalize_from 0 history)
unfolding normalize_from
normalize-cases P empty block orphan stays [] = empty
normalize-cases P empty block orphan stays (m ∷ history) =
    let before = normalize-cases P empty block orphan stays history in
    elim (Bool-cases (opens_block m)) [
      | inl opens ↦
          subst (P (m ∷ history)) (sym (normalize_from-block m history opens))
            (block m history opens before)
      | inr plain ↦ elim (Bool-cases (is_tool m.role)) [
        | inl lost ↦
            subst (P (m ∷ history)) (sym (normalize_from-tool m history plain lost))
              (orphan m history lost before)
        | inr other ↦
            subst (P (m ∷ history)) (sym (normalize_from-other m history plain other))
              (stays m history plain other before)
      ]
    ]

leading_tools-normalize : (history : List Message) → leading_tools (normalize_from 0 history) ≡ []
unfolding leading_tools
leading_tools-normalize history =
    normalize-cases (λ _ out. leading_tools out ≡ []) refl
      (λ m messages opens h. rw (opens-not-tool m opens) refl) (λ m messages lost h. h)
      (λ m messages plain other h. rw other refl) history

-- The messages of the other roles, with their calls, come through in order.
keep-tools :
    (tools rest : List Message)
    → AreTools tools
    → keep (λ (m : Message). not (is_tool m.role)) (tools ++ rest)
      ≡ keep (λ (m : Message). not (is_tool m.role)) rest
unfolding is_tool
keep-tools [] rest h = refl
keep-tools (t ∷ tools) rest (role, h) = rw role (keep-tools tools rest h)

-- The messages that are no tool messages come through the normalization unchanged, all of them and
-- in their order.
pub normalize_tool_history-keeps :
    (history : List Message)
    → HasDistinctCalls history
    → keep (λ (m : Message). not (is_tool m.role)) (normalize_tool_history history)
      ≡ keep (λ (m : Message). not (is_tool m.role)) history
unfolding normalize_tool_history
normalize_tool_history-keeps history =
    normalize-cases
      (λ h out.
        HasDistinctCalls h
        → keep (λ (m : Message). not (is_tool m.role)) out
          ≡ keep (λ (m : Message). not (is_tool m.role)) h)
      (λ _. refl)
      (λ m messages opens h (d, ds).
        let tools = leading_tools messages in
        let results = results-AreTools tools (leading_tools-AreTools messages) m.tool_calls d in
        rw
          (
            opens-not-tool m opens,
            keep-tools (map (result_for tools) m.tool_calls) (normalize_from 0 messages) results,
            h ds,
          )
          refl)
      (λ m messages lost h (d, ds). rw (lost, h ds) refl)
      (λ m messages plain other h (d, ds). rw (other, h ds) refl) history

-- Where the calls of every message have different ids that are not empty, normalizing a second time
-- changes nothing.
pub normalize_tool_history-idempotent :
    (history : List Message)
    → HasDistinctCalls history
    → normalize_tool_history (normalize_tool_history history) ≡ normalize_tool_history history
unfolding normalize_tool_history
normalize_tool_history-idempotent history =
    normalize-cases (λ h out. HasDistinctCalls h → normalize_from 0 out ≡ out) (λ _. refl)
      (λ m messages opens h (d, ds).
        let tools = leading_tools messages in
        let rest = normalize_from 0 messages in
        let are_tools = leading_tools-AreTools messages in
        let results = results-AreTools tools are_tools m.tool_calls d in
        normalize_from-block m (map (result_for tools) m.tool_calls ++ rest) opens
        ∙ ap₂ (λ block later. m ∷ block ++ later)
            (ap (λ found. map (result_for found) m.tool_calls)
                (leading_tools-append (map (result_for tools) m.tool_calls) rest results
                  (leading_tools-normalize messages))
              ∙ results-stable tools are_tools m.tool_calls d)
            (normalize-tools (map (result_for tools) m.tool_calls) rest results ∙ h ds))
      (λ m messages lost h (d, ds). h ds)
      (λ m messages plain other h (d, ds).
        normalize_from-other m (normalize_from 0 messages) plain other ∙ ap (m ∷◌) (h ds))
      history
