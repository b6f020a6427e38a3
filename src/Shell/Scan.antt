-- ===== src/Shell/Scan.antt =====
-- packages/tools/src/shellParse.ts: the three scanners `splitShellSegments`, `tokenizeShellWords`
-- and `canonicalizeShellCommand`. Each is a fold of its loop's body over the characters.
pub mod Quoting
use ninjacode_agent.Prelude.{
  ltb, ◌==◌, is_some, if◌then◌else◌, take, length, ℕ, Bool, true, false, not, ◌&&◌, ◌||◌, Option,
  none, some, List, [], ◌∷◌, ◌++◌,
}
use ninjacode_agent.Prelude.Texts.{Text, is_space, text_eq, trim, codes}

-- `ScanState`: the quote that is open, and whether a backslash came before.
pub record ScanState : Type 0 where
  pub quote : Option ℕ
  pub escaped : Bool

abbrev pub start_state : ScanState
start_state = record { quote = none; escaped = false }

-- `state.quote === ch`
unfoldable pub is_quote : Option ℕ → ℕ → Bool
is_quote none ch = false
is_quote (some q) ch = q == ch

-- `ch === "'" || ch === '"'`
unfoldable pub is_quote_mark : ℕ → Bool
is_quote_mark ch = ch == 39 || ch == 34

-- `ch === "\\" && state.quote !== "'"`
unfoldable pub starts_escape : Option ℕ → ℕ → Bool
unfolding is_quote
starts_escape quote ch = ch == 92 && not (is_quote quote 39)

-- `state.quote === ch ? null : state.quote ?? ch`
unfoldable pub toggled : Option ℕ → ℕ → Option ℕ
toggled none ch = some ch
toggled (some q) ch = if q == ch then none else some q

-- `if (word) out.push(word)`
unfoldable pub push_nonempty : List Text → Text → List Text
push_nonempty out [] = out
push_nonempty out (c ∷ word) = out ++ (c ∷ word) ∷ []

-- The loop of `splitShellSegments`. `current` is `command.slice(start, i)`, and `skip` says that the
-- character belongs to a separator of two that has been dealt with.
pub record SplitState : Type 0 where
  pub state : ScanState
  pub skip : Bool
  pub current : Text
  pub out : List Text

unfoldable pub separator_length : ℕ → Text → ℕ
separator_length ch rest =
    if text_eq (ch ∷ take 1 rest) (codes "&&") || text_eq (ch ∷ take 1 rest) (codes "||")
    then 2
    else if ch == b';' || ch == b'|' || ch == b'&' || ch == 10
    then 1
    else 0

unfoldable pub split_step : SplitState → ℕ → Text → SplitState
unfolding starts_escape is_quote_mark toggled push_nonempty separator_length
split_step s ch rest =
    let kept = s.current ++ ch ∷ [] in
    let quote = s.state.quote in
    if s.skip
    then record s { skip = false }
    else if s.state.escaped
    then record s { state = record { quote = quote; escaped = false }; current = kept }
    else if starts_escape quote ch
    then record s { state = record { quote = quote; escaped = true }; current = kept }
    else if is_quote_mark ch
    then record s { state = record { quote = toggled quote ch; escaped = false }; current = kept }
    else if is_some quote
    then record s { current = kept }
    else if separator_length ch rest == 0
    then record s { current = kept }
    else record s {
      skip = separator_length ch rest == 2;
      current = [];
      out = push_nonempty s.out (trim s.current);
    }

unfoldable pub split_from : SplitState → Text → SplitState
unfolding split_step
split_from s [] = s
split_from s (ch ∷ rest) = split_from (split_step s ch rest) rest

abbrev pub split_start : SplitState
split_start = record { state = start_state; skip = false; current = []; out = [] }

unfoldable pub split_shell_segments : Text → List Text
unfolding split_from push_nonempty
split_shell_segments command =
    let s = split_from split_start command in push_nonempty s.out (trim s.current)

-- The loop of `tokenizeShellWords`.
pub record WordState : Type 0 where
  pub state : ScanState
  pub word : Text
  pub active : Bool
  pub words : List Text

unfoldable pub word_step : WordState → ℕ → WordState
unfolding starts_escape is_quote_mark is_quote
word_step s ch =
    let quote = s.state.quote in
    let more = s.word ++ ch ∷ [] in
    if s.state.escaped
    then record s { state = record { quote = quote; escaped = false }; word = more; active = true }
    else if starts_escape quote ch
    then record s { state = record { quote = quote; escaped = true }; active = true }
    else if is_quote_mark ch
    then (if is_quote quote ch
        then record s { state = record { quote = none; escaped = false }; active = true }
        else if not (is_some quote)
        then record s { state = record { quote = some ch; escaped = false }; active = true }
        else record s { word = more; active = true })
    else if not (is_some quote) && is_space ch
    then record s {
      word = [];
      active = false;
      words = if s.active then s.words ++ s.word ∷ [] else s.words;
    }
    else record s { word = more; active = true }

unfoldable pub words_from : WordState → Text → WordState
unfolding word_step
words_from s [] = s
words_from s (ch ∷ rest) = words_from (word_step s ch) rest

abbrev pub word_start : WordState
word_start = record { state = start_state; word = []; active = false; words = [] }

unfoldable pub finish_words : WordState → Option (List Text)
finish_words s =
    if is_some s.state.quote || s.state.escaped
    then none
    else some (if s.active then s.words ++ s.word ∷ [] else s.words)

unfoldable pub tokenize_shell_words : Text → Option (List Text)
unfolding words_from finish_words
tokenize_shell_words segment = finish_words (words_from word_start segment)

-- The loop of `canonicalizeShellCommand`.
pub record CanonState : Type 0 where
  pub state : ScanState
  pub out : Text
  pub pending_space : Bool

-- `if (test) out += " "; out += ch;`
unfoldable pub emit : Bool → Text → ℕ → Text
emit test out ch = (if test then out ++ 32 ∷ [] else out) ++ ch ∷ []

unfoldable pub canon_step : CanonState → ℕ → CanonState
unfolding starts_escape is_quote_mark toggled emit
canon_step s ch =
    let quote = s.state.quote in
    if s.state.escaped
    then record {
      state = record { quote = quote; escaped = false };
      out = s.out ++ ch ∷ [];
      pending_space = false;
    }
    else if starts_escape quote ch
    then record {
      state = record { quote = quote; escaped = true };
      out = emit s.pending_space s.out ch;
      pending_space = false;
    }
    else if is_quote_mark ch
    then record {
      state = record { quote = toggled quote ch; escaped = false };
      out = emit (s.pending_space && not (is_some quote)) s.out ch;
      pending_space = false;
    }
    else if not (is_some quote) && is_space ch
    then record s { pending_space = ltb 0 (length s.out) }
    else record s { out = emit s.pending_space s.out ch; pending_space = false }

unfoldable pub canon_from : CanonState → Text → CanonState
unfolding canon_step
canon_from s [] = s
canon_from s (ch ∷ rest) = canon_from (canon_step s ch) rest

unfoldable pub canonicalize_shell_command : Text → Text
unfolding canon_from
canonicalize_shell_command command =
    (canon_from (record { state = start_state; out = []; pending_space = false })
      (trim command)).out
