-- ===== src/Completion/Loops.antt =====
-- agentTurnCompletion.ts, `evaluateToolLoop`: tool calls that repeat.
use ninjacode_agent.Prelude.{
  ltb, if-holds, get_or, ltb→lt, leb, if◌then◌else◌, leb→le, All, drop, length, ℕ, ◌+◌, ◌-◌, ◌≤◌,
  ◌<◌, ◌≡◌, refl, sym, subst, Bool, true, false, not, Option, none, some, List, [], ◌∷◌, arith,
}
use ninjacode_agent.Prelude.Maps.{get-insert, get, insert}
use ninjacode_agent.Prelude.Texts.{text_eq_iff, Text, text_eq_refl, text_eq, text_eq→≡}

abbrev pub loop_window : ℕ
loop_window = 12

abbrev pub loop_warn_repeats : ℕ
loop_warn_repeats = 4

abbrev pub loop_stop_repeats : ℕ
loop_stop_repeats = 7

-- A decision carries the fingerprint and the count that its message names.
pub data LoopDecision : Type 0 where
  quiet : LoopDecision
  warn stop : Text → ℕ → LoopDecision

-- `fingerprints.slice(-LOOP_WINDOW)`
unfoldable pub recent : List Text → List Text
recent fingerprints = drop (length fingerprints - loop_window) fingerprints

-- `counts.set(fp, (counts.get(fp) ?? 0) + 1)` for each fingerprint.
unfoldable pub counted : List (Text × ℕ) → List Text → List (Text × ℕ)
counted counts [] = counts
counted counts (fp ∷ fps) = counted (insert fp (get_or (get fp counts) 0 + 1) counts) fps

-- `if (!worst || n > worst.n) worst = { fp, n }`
abbrev larger : Text → Text → ℕ → ℕ → Text × ℕ
larger fp gp m n = if ltb m n then (gp, n) else (fp, m)

-- The entry with the greatest count, the first of them.
unfoldable pub worst_of : Option (Text × ℕ) → List (Text × ℕ) → Option (Text × ℕ)
worst_of worst [] = worst
worst_of none ((fp, n) ∷ counts) = worst_of (some (fp, n)) counts
worst_of (some (best, m)) ((fp, n) ∷ counts) = worst_of (some (larger best fp m n)) counts

unfoldable pub decision_of : Option (Text × ℕ) → LoopDecision
decision_of none = quiet
decision_of (some (fp, n)) =
    if ltb n loop_warn_repeats
    then quiet
    else if leb loop_stop_repeats n
    then stop fp n
    else warn fp n

unfoldable pub evaluate_tool_loop : List Text → Bool → LoopDecision
unfolding recent counted worst_of decision_of
evaluate_tool_loop fingerprints enabled =
    if not enabled then quiet else decision_of (worst_of none (counted [] (recent fingerprints)))

-- How often a fingerprint is in a list.
unfoldable pub occurrences : Text → List Text → ℕ
occurrences fp [] = 0
occurrences fp (g ∷ fps) = (if text_eq g fp then 1 else 0) + occurrences fp fps

-- The count of a fingerprint after a list is what it was, and one for each occurrence.
get-counted :
    (fp : Text) (fps : List Text) (counts : List (Text × ℕ))
    → get_or (get fp (counted counts fps)) 0 ≡ get_or (get fp counts) 0 + occurrences fp fps
unfolding counted occurrences
get-counted fp [] counts = omega arith
get-counted fp (g ∷ fps) counts = ground (
  arith,
  get-counted fp fps (insert g (get_or (get g counts) 0 + 1) counts),
  get-insert g fp (get_or (get g counts) 0 + 1) counts,
  text_eq_iff g fp,
)

All-insert :
    (P : Text × ℕ → Type 0) (k : Text) (v : ℕ) (counts : List (Text × ℕ))
    → P (k, v)
    → All P counts
    → All P (insert k v counts)
unfolding insert
All-insert P k v [] p h = (p, tt)
All-insert P k v ((j, n) ∷ counts) p (q, h) =
    by_key (text_eq j k) refl (All-insert P k v counts p h)
  where
    by_key :
        (b : Bool)
        → text_eq j k ≡ b
        → All P (insert k v counts)
        → All P (if b then (j, v) ∷ counts else (j, n) ∷ insert k v counts)
    by_key true e later = (subst (λ i. P (i, v)) (sym (text_eq→≡ j k e)) p, h)
    by_key false e later = (q, later)

chosen_above : (fp gp : Text) (m n : ℕ) → (m ≤ (larger fp gp m n).1) × (n ≤ (larger fp gp m n).1)
chosen_above fp gp m n = (ground arith, ground arith)

-- No entry is above a total that the list still has to reach.
module _ (total : Text → ℕ) where
  abbrev IsBelow : Text × ℕ → Type 0
  IsBelow entry = entry.1 ≤ total (entry.0)

  counted-IsBelow :
      (fps : List Text) (counts : List (Text × ℕ))
      → All IsBelow counts
      → ((k : Text) → total k ≡ get_or (get k counts) 0 + occurrences k fps)
      → All IsBelow (counted counts fps)
  unfolding counted occurrences
  counted-IsBelow [] counts h reach = h
  counted-IsBelow (fp ∷ fps) counts h reach =
      counted-IsBelow fps (insert fp (get_or (get fp counts) 0 + 1) counts)
        (All-insert IsBelow fp (get_or (get fp counts) 0 + 1) counts
          (ground (arith, reach fp, text_eq_refl fp)) h)
        (λ k.
          ground (
            arith,
            reach k,
            get-insert fp k (get_or (get fp counts) 0 + 1) counts,
            text_eq_iff fp k,
          ))

  -- The greatest entry is below its total, and no count is above it.
  worst_of-greatest :
      (best : Text × ℕ) (counts : List (Text × ℕ))
      → IsBelow best
      → All IsBelow counts
      → (worst : Text × ℕ) × (worst_of (some best) counts ≡ some worst)
        × IsBelow worst
        × (best.1 ≤ worst.1)
        × ((k : Text) → get_or (get k counts) 0 ≤ worst.1)
  unfolding worst_of get
  worst_of-greatest best [] b h = (best, refl, b, ground arith, λ k. ground arith)
  worst_of-greatest (fp, m) ((gp, n) ∷ counts) b (g, h) =
      let chosen = larger fp gp m n in
      let above = chosen_above fp gp m n in
      let (worst, found, below, most, each) =
        worst_of-greatest chosen counts
          (if-holds IsBelow (ltb m n) (gp, n) (fp, m) (λ _. g) (λ _. b)) h in
      (
        worst,
        found,
        below,
        omega (arith, above.0, most),
        λ k.
            if-holds (λ (o : Option ℕ). get_or o 0 ≤ worst.1) (text_eq gp k) (some n) (get k counts)
              (λ _. omega (arith, above.1, most)) (λ _. each k),
      )

-- What a decision says of the calls in the window: that none is repeated four times; or that the
-- one it names occurs as often as it says, at least four times, and none occurs seven times; or at
-- least seven times.
abbrev pub IsJust : List Text → LoopDecision → Type 0
IsJust window quiet = (fp : Text) → occurrences fp window < loop_warn_repeats
IsJust window (warn fp n) =
    (occurrences fp window ≡ n)
    × (loop_warn_repeats ≤ n)
    × ((other : Text) → occurrences other window ≤ n)
    × (n < loop_stop_repeats)
IsJust window (stop fp n) =
    (occurrences fp window ≡ n)
    × (loop_stop_repeats ≤ n)
    × ((other : Text) → occurrences other window ≤ n)

decision_of-IsJust :
    (window : List Text) (fp : Text) (n : ℕ)
    → occurrences fp window ≡ n
    → ((other : Text) → occurrences other window ≤ n)
    → IsJust window (decision_of (some (fp, n)))
unfolding decision_of
decision_of-IsJust window fp n exact most =
    if-holds (IsJust window) (ltb n loop_warn_repeats) quiet
      (if leb loop_stop_repeats n then stop fp n else warn fp n)
      (λ few other. omega (arith, most other, ltb→lt n loop_warn_repeats few))
      (λ many.
        if-holds (IsJust window) (leb loop_stop_repeats n) (stop fp n) (warn fp n)
          (λ stops. (exact, leb→le loop_stop_repeats n stops, most))
          (λ warns. (exact, ground arith, most, ground arith)))

-- The decision on tool calls that repeat goes exactly by the last twelve calls: with the detection
-- enabled it is quiet only if no call occurs four times among them, and a warning or a stop names
-- the call that occurs most, with its number, from four up to six or from seven on. Disabled, it is
-- always quiet.
pub evaluate_tool_loop-IsJust :
    (fingerprints : List Text)
    → IsJust (drop (length fingerprints - 12) fingerprints) (evaluate_tool_loop fingerprints true)
      × (evaluate_tool_loop fingerprints false ≡ quiet)
unfolding evaluate_tool_loop recent get worst_of
evaluate_tool_loop-IsJust fingerprints = (
  by_counts (counted [] (recent fingerprints))
      (counted-IsBelow (λ k. occurrences k (recent fingerprints)) (recent fingerprints) [] tt
        (λ k. ground arith))
      (λ k. get-counted k (recent fingerprints) []),
  refl,
)
  where
    by_counts :
        (counts : List (Text × ℕ))
        → All (IsBelow (λ k. occurrences k (recent fingerprints))) counts
        → ((k : Text)
            → get_or (get k counts) 0 ≡ get_or (get k []) 0 + occurrences k (recent fingerprints))
        → IsJust (recent fingerprints) (decision_of (worst_of none counts))
    by_counts [] h exact = λ fp. ground (arith, exact fp)
    by_counts ((fp, n) ∷ counts) (b, h) exact =
        let window = recent fingerprints in
        let (worst, found, below, most, each) =
          worst_of-greatest (λ k. occurrences k window) (fp, n) counts b h in
        let bound : ((k : Text) → occurrences k window ≤ worst.1) =
          λ k. ground (arith, exact k, each k, most) in
        subst (λ w. IsJust window (decision_of w)) (sym found)
          (decision_of-IsJust window (worst.0) (worst.1) (omega (arith, below, bound (worst.0)))
            bound)
