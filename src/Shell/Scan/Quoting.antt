-- ===== src/Shell/Scan/Quoting.antt =====
-- packages/tools/src/shellParse.ts, `tokenizeShellWords`: words in single quotes.
use ninjacode_agent.Prelude.{
  &&_both, ◌==◌, all, All, ℕ, ◌≡◌, refl, ap, ◌∙◌, true, false, not, some, List, [], ◌∷◌, ◌++◌,
  append-nil, append_assoc, arith,
}
use ninjacode_agent.Prelude.Texts.{Text, is_space}
use ninjacode_agent.Shell.Scan.{
  is_quote_mark, word_step, tokenize_shell_words, finish_words, start_state, WordState,
  starts_escape, words_from, is_quote,
}

-- A word in single quotes, before what follows.
unfoldable pub quoted : Text → Text → Text
quoted word rest = 39 ∷ word ++ 39 ∷ rest

-- The words in single quotes, with a blank behind each.
unfoldable pub quoted_line : List Text → Text
unfolding quoted
quoted_line [] = []
quoted_line (word ∷ words) = quoted word (32 ∷ quoted_line words)

abbrev pub HasNoQuote : Text → Type 0
HasNoQuote word = all (λ c. not (c == 39)) word ≡ true

abbrev within : Text → List Text → WordState
within word words = record {
  state = record { quote = some 39; escaped = false };
  word = word;
  active = true;
  words = words;
}

abbrev between : List Text → WordState
between words = record { state = start_state; word = []; active = false; words = words }

step_within :
    (c : ℕ) (done : Text) (words : List Text)
    → not (c == 39) ≡ true
    → word_step (within done words) c ≡ within (done ++ c ∷ []) words
unfolding word_step is_quote_mark is_quote starts_escape
step_within c done words h = ground arith

words_from-word :
    (word done rest : Text) (words : List Text)
    → HasNoQuote word
    → words_from (within done words) (word ++ rest) ≡ words_from (within (done ++ word) words) rest
unfolding words_from
words_from-word [] done rest words h = rw (append-nil done) refl
words_from-word (c ∷ word) done rest words h =
    let (h1, h2) = &&_both (not (c == 39)) (all (λ c. not (c == 39)) word) h in
    ap (λ s. words_from s (word ++ rest)) (step_within c done words h1)
    ∙ words_from-word word (done ++ c ∷ []) rest words h2
    ∙ ap (λ t. words_from (within t words) rest) (append_assoc done (c ∷ []) word)

words_from-quoted :
    (word rest : Text) (words : List Text)
    → HasNoQuote word
    → words_from (between words) (quoted word (32 ∷ rest))
      ≡ words_from (between (words ++ word ∷ [])) rest
unfolding words_from word_step is_quote_mark is_quote starts_escape is_space quoted
words_from-quoted word rest words h = words_from-word word [] (39 ∷ 32 ∷ rest) words h

words_from-quoted_line :
    (ws words : List Text)
    → All HasNoQuote ws
    → words_from (between words) (quoted_line ws) ≡ between (words ++ ws)
unfolding words_from quoted_line
words_from-quoted_line [] words h = rw (append-nil words) refl
words_from-quoted_line (w ∷ ws) words (hw, h) =
    words_from-quoted w (quoted_line ws) words hw
    ∙ words_from-quoted_line ws (words ++ w ∷ []) h
    ∙ ap between (append_assoc words (w ∷ []) ws)

-- Words without a single quote, each put in single quotes, are read back as they were, whatever
-- blanks, separators and backslashes they contain.
pub tokenize_shell_words-quoted_line :
    (words : List Text)
    → All HasNoQuote words
    → tokenize_shell_words (quoted_line words) ≡ some words
unfolding tokenize_shell_words finish_words
tokenize_shell_words-quoted_line words h = rw (words_from-quoted_line words [] h) refl
