-- ===== src/History/Tests.antt =====
-- toolHistory.ts on a concrete history, and its theorems there.
use ninjacode_agent.History.{
  truthy, Role, user_role, is_valid_tool_chain, align_compaction_start, tool_role, Message,
  assistant_role, normalize_tool_history,
}
use ninjacode_agent.History.Cuts.{align_compaction_start-valid}
use ninjacode_agent.History.Idempotence.{normalize_tool_history-idempotent}
use ninjacode_agent.History.Validity.{normalize_tool_history-valid, HasDistinctCalls}
use ninjacode_agent.Prelude.{drop, String, ◌≡◌, refl, true, none, some, List, [], ◌∷◌, map}
use ninjacode_agent.Prelude.Maps.{remove}
use ninjacode_agent.Prelude.Texts.{member, text_eq, codes}

abbrev said : Role → String → Message
said role words = record {
  role = role;
  content = codes words;
  tool_calls = [];
  tool_call_id = none;
  name = none;
}

abbrev asked_for : Message
asked_for = record (said assistant_role "") {
  tool_calls =
      (record { id = codes "a"; name = codes "grep" })
      ∷ (record { id = codes "b"; name = codes "glob" })
      ∷ [];
}

abbrev answered : String → String → Message
answered id words = record (said tool_role words) { tool_call_id = some (codes id) }

-- The result of a is missing, that of x is an orphan.
abbrev torn : List Message
torn =
    said user_role "go"
    ∷ asked_for
    ∷ answered "b" "two"
    ∷ answered "x" "?"
    ∷ said user_role "on"
    ∷ []

abbrev whole : List Message
whole =
    said user_role "go"
    ∷ asked_for
    ∷ answered "a" "one"
    ∷ answered "b" "two"
    ∷ said user_role "on"
    ∷ []

torn_is_mended :
    map (λ (m : Message). m.tool_call_id) (normalize_tool_history torn)
    ≡ none ∷ none ∷ some (codes "a") ∷ some (codes "b") ∷ none ∷ []
unfolding normalize_tool_history text_eq
torn_is_mended = refl

whole_is_kept : normalize_tool_history whole ≡ whole
unfolding normalize_tool_history text_eq
whole_is_kept = refl

whole_is_valid : is_valid_tool_chain whole ≡ true
unfolding is_valid_tool_chain member text_eq remove
whole_is_valid = refl

cut_moves_back : align_compaction_start whole 3 ≡ 1
unfolding align_compaction_start
cut_moves_back = refl

torn-HasDistinctCalls : HasDistinctCalls torn
unfolding truthy member text_eq
torn-HasDistinctCalls = (tt, ((refl, refl, (refl, refl, tt)), (tt, (tt, (tt, tt)))))

normalize_tool_history-valid_example : is_valid_tool_chain (normalize_tool_history torn) ≡ true
normalize_tool_history-valid_example = normalize_tool_history-valid torn torn-HasDistinctCalls

normalize_tool_history-idempotent_example :
    normalize_tool_history (normalize_tool_history torn) ≡ normalize_tool_history torn
normalize_tool_history-idempotent_example =
    normalize_tool_history-idempotent torn torn-HasDistinctCalls

align_compaction_start-valid_example :
    is_valid_tool_chain (drop (align_compaction_start whole 3) whole) ≡ true
align_compaction_start-valid_example = align_compaction_start-valid whole 3 whole_is_valid
