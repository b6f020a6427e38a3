-- ===== src/Pipeline/Batches/Laws.antt =====
-- The batches of toolPipelineHelpers.ts: their order, their size, and what is in them.
use ninjacode_agent.Breaker.{new}
use ninjacode_agent.Pipeline.{ToolCall, Tool, Registry}
use ninjacode_agent.Pipeline.Batches.{
  stands_alone, normalized_read_target, parallel_read_tools, batch_step, batches_from,
  tool_execution_batches, BatchState, max_parallel_reads, may_join, is_parallelizable_batch,
  resource_of, flushed, is_parallelizable_after, joins, starts,
}
use ninjacode_agent.Pipeline.Errors.{is_read_only}
use ninjacode_agent.Prelude.{
  some_inj, if-holds, &&_both, Bool-cases, leb, if◌then◌else◌, leb→le, All-append, All, length, ◌≤◌,
  ◌≡◌, refl, sym, ap, ◌∙◌, ◌≢◌, ◌⊎◌, inl, inr, Bool, true, false, not, ◌&&◌, ◌||◌, Option, none,
  some, List, [], ◌∷◌, ◌++◌, map, append-nil, append_assoc, arith,
}
use ninjacode_agent.Prelude.Maps.{add, member-add, get}
use ninjacode_agent.Prelude.Texts.{member, Text, text_eq_refl, text_eq, text_eq→≡, ne_of_text_eq}

unfoldable pub joined {ℓ} : {X : Type ℓ} → List (List X) → List X
joined [] = []
joined (xs ∷ xss) = xs ++ joined xss

joined-append {ℓ} :
    {X : Type ℓ} (xss yss : List (List X)) → joined (xss ++ yss) ≡ joined xss ++ joined yss
unfolding joined
joined-append [] yss = refl
joined-append (xs ∷ xss) yss =
    ap (xs ++◌) (joined-append xss yss) ∙ sym (append_assoc xs (joined xss) (joined yss))

joined-snoc {ℓ} :
    {X : Type ℓ} (xss : List (List X)) (xs : List X) → joined (xss ++ xs ∷ []) ≡ joined xss ++ xs
unfolding joined
joined-snoc xss xs = joined-append xss (xs ∷ []) ∙ ap (joined xss ++◌) (append-nil xs)

joined-singles {ℓ} : {X : Type ℓ} (xs : List X) → joined (map (λ x. x ∷ []) xs) ≡ xs
unfolding joined
joined-singles [] = refl
joined-singles (x ∷ xs) = ap (x ∷◌) (joined-singles xs)

other_text :
    (s r : Text) (texts : List Text)
    → member s texts ≡ true
    → member r texts ≡ false
    → text_eq s r ≡ false
other_text s r texts m n = elim (Bool-cases (text_eq s r)) [
  | inr e ↦ e
  | inl e ↦ ground (arith, text_eq→≡ s r e)
]

module _ {A : Type 0} (registry : Registry A) where
  joined-flushed :
      (batches : List (List (ToolCall A))) (pending : List (ToolCall A))
      → joined (flushed batches pending) ≡ joined batches ++ pending
  unfolding flushed
  joined-flushed batches [] = sym (append-nil (joined batches))
  joined-flushed batches (call ∷ pending) = joined-snoc batches (call ∷ pending)

  -- The calls that a state holds, in order.
  abbrev calls_in : BatchState A → List (ToolCall A)
  calls_in st = joined st.batches ++ st.pending

  batch_step-holds :
      (P : BatchState A → Type 0) (st : BatchState A) (call : ToolCall A)
      → (may_join registry st call ≡ true → P (joins st call))
      → (is_parallelizable_batch registry (call ∷ []) ≡ true → P (starts st call))
      → P (stands_alone st call)
      → P (batch_step registry st call)
  unfolding batch_step
  batch_step-holds P st call hj hs ha =
      if-holds P (may_join registry st call) (joins st call)
        (if is_parallelizable_batch registry (call ∷ [])
          then starts st call
          else stands_alone st call)
        hj
        (λ _.
          if-holds P (is_parallelizable_batch registry (call ∷ [])) (starts st call)
            (stands_alone st call) hs (λ _. ha))

  calls_in-batch_step :
      (st : BatchState A) (call : ToolCall A)
      → calls_in (batch_step registry st call) ≡ calls_in st ++ call ∷ []
  unfolding joins starts stands_alone
  calls_in-batch_step st call =
      let kept = joined-flushed st.batches st.pending in
      batch_step-holds (λ r. calls_in r ≡ calls_in st ++ call ∷ []) st call
        (λ _. sym (append_assoc (joined st.batches) st.pending (call ∷ [])))
        (λ _. ap (◌++ call ∷ []) kept)
        (append-nil (joined (flushed st.batches st.pending ++ (call ∷ []) ∷ []))
          ∙ (joined-snoc (flushed st.batches st.pending) (call ∷ []) ∙ ap (◌++ call ∷ []) kept))

  calls_in-batches_from :
      (st : BatchState A) (calls : List (ToolCall A))
      → calls_in (batches_from registry st calls) ≡ calls_in st ++ calls
  unfolding batches_from
  calls_in-batches_from st [] = sym (append-nil (calls_in st))
  calls_in-batches_from st (call ∷ calls) =
      calls_in-batches_from (batch_step registry st call) calls
      ∙ (ap (◌++ calls) (calls_in-batch_step st call)
          ∙ append_assoc (calls_in st) (call ∷ []) calls)

  -- What every batch is: one call, or at most four that may overlap with each other.
  abbrev pub IsBatch : List (ToolCall A) → Type 0
  IsBatch batch =
      (length batch ≡ 1)
      ⊎ ((length batch ≤ max_parallel_reads) × (is_parallelizable_batch registry batch ≡ true))

  abbrev IsSplit : BatchState A → Type 0
  IsSplit st =
      All IsBatch st.batches
      × ((length st.pending ≤ max_parallel_reads)
          × (is_parallelizable_batch registry st.pending ≡ true))

  flushed-IsBatch :
      (batches : List (List (ToolCall A))) (pending : List (ToolCall A))
      → All IsBatch batches
      → length pending ≤ max_parallel_reads
      → is_parallelizable_batch registry pending ≡ true
      → All IsBatch (flushed batches pending)
  unfolding flushed
  flushed-IsBatch batches [] h le p = h
  flushed-IsBatch batches (call ∷ pending) h le p =
      All-append IsBatch batches ((call ∷ pending) ∷ []) h (inr (le, p), tt)

  one_fits : (call : ToolCall A) → length (call ∷ []) ≤ max_parallel_reads
  one_fits call = ground arith

  batch_step-IsSplit :
      (st : BatchState A) (call : ToolCall A) → IsSplit st → IsSplit (batch_step registry st call)
  unfolding joins starts stands_alone may_join is_parallelizable_batch is_parallelizable_after
  batch_step-IsSplit st call (h, (le, p)) =
      let batches = flushed-IsBatch st.batches st.pending h le p in
      let candidate = st.pending ++ call ∷ [] in
      batch_step-holds IsSplit st call
        (λ c.
          let (a, b) =
            &&_both (leb (length candidate) max_parallel_reads)
              (is_parallelizable_batch registry candidate) c in
          (h, (leb→le (length candidate) max_parallel_reads a, b)))
        (λ c. (batches, (one_fits call, c)))
        (
          All-append IsBatch (flushed st.batches st.pending) ((call ∷ []) ∷ []) batches
              (inl refl, tt),
          (ground arith, refl),
        )

  batches_from-IsSplit :
      (st : BatchState A) (calls : List (ToolCall A))
      → IsSplit st
      → IsSplit (batches_from registry st calls)
  unfolding batches_from
  batches_from-IsSplit st [] h = h
  batches_from-IsSplit st (call ∷ calls) h =
      batches_from-IsSplit (batch_step registry st call) calls (batch_step-IsSplit st call h)

  singles-IsBatch : (calls : List (ToolCall A)) → All IsBatch (map (λ call. call ∷ []) calls)
  singles-IsBatch [] = tt
  singles-IsBatch (call ∷ calls) = (inl refl, singles-IsBatch calls)

  -- The batches of a turn are its calls in the model's order, none lost and none twice, and every
  -- batch is one call or at most four that `isParallelizableBatch` accepts together.
  pub tool_execution_batches-joined :
      (calls : List (ToolCall A)) (parallel : Bool)
      → (joined (tool_execution_batches registry calls parallel) ≡ calls)
        × All IsBatch (tool_execution_batches registry calls parallel)
  unfolding tool_execution_batches is_parallelizable_batch is_parallelizable_after joined
  tool_execution_batches-joined calls false = (joined-singles calls, singles-IsBatch calls)
  tool_execution_batches-joined calls true =
      let start : BatchState A = record { batches = []; pending = [] } in
      let st = batches_from registry start calls in
      let (h, (le, p)) = batches_from-IsSplit start calls (tt, (ground arith, refl)) in
      (
        joined-flushed st.batches st.pending ∙ calls_in-batches_from start calls,
        flushed-IsBatch st.batches st.pending h le p,
      )

  -- A call of an audited tool that only reads.
  abbrev pub IsRead : ToolCall A → Type 0
  IsRead tc =
      (tool : Tool A) × (get tc.name registry ≡ some tool)
      × (is_read_only tool.risk ≡ true)
      × (member tc.name parallel_read_tools ≡ true)

  resource_of-IsRead : (tc : ToolCall A) (r : Text) → resource_of registry tc ≡ some r → IsRead tc
  unfolding resource_of
  resource_of-IsRead tc r e = by_tool (get tc.name registry) refl e
    where
      by_tool :
          (o : Option (Tool A))
          → get tc.name registry ≡ o
          → elim o [
            | none ↦ none
            | some tool ↦
                if not (is_read_only tool.risk) || not (member tc.name parallel_read_tools)
                then none
                else some (normalized_read_target tool tc)
          ]
            ≡ some r
          → IsRead tc
      by_tool none found h = ground arith
      by_tool (some tool) found h = (tool, found, ground arith, ground arith)

  accepted :
      (resources : List Text) (tc : ToolCall A) (calls : List (ToolCall A))
      → is_parallelizable_after registry resources (tc ∷ calls) ≡ true
      → (r : Text) × (resource_of registry tc ≡ some r)
        × (member r resources ≡ false)
        × (is_parallelizable_after registry (add r resources) calls ≡ true)
  unfolding is_parallelizable_after
  accepted resources tc calls h = by_resource (resource_of registry tc) refl h
    where
      by_resource :
          (o : Option Text)
          → resource_of registry tc ≡ o
          → elim o [
            | none ↦ false
            | some resource ↦
                not (member resource resources)
                && is_parallelizable_after registry (add resource resources) calls
          ]
            ≡ true
          → (r : Text) × (resource_of registry tc ≡ some r)
            × (member r resources ≡ false)
            × (is_parallelizable_after registry (add r resources) calls ≡ true)
      by_resource none found e = ground arith
      by_resource (some r) found e = (r, found, ground arith, ground arith)

  -- A call behind others in a batch has a resource outside those seen before.
  accepted_behind :
      (resources : List Text) (front : List (ToolCall A)) (tc : ToolCall A)
      (back : List (ToolCall A)) (seen : Text)
      → member seen resources ≡ true
      → is_parallelizable_after registry resources (front ++ tc ∷ back) ≡ true
      → (r : Text) × (resource_of registry tc ≡ some r) × (text_eq seen r ≡ false)
  accepted_behind resources [] tc back seen m h =
      let (r, found, new, _) = accepted resources tc back h in
      (r, found, other_text seen r resources m new)
  accepted_behind resources (f ∷ front) tc back seen m h =
      let (r, _, _, rest) = accepted resources f (front ++ tc ∷ back) h in
      accepted_behind (add r resources) front tc back seen
        (ground (arith, member-add r seen resources)) rest

  accepted_in :
      (resources : List Text) (front calls : List (ToolCall A))
      → is_parallelizable_after registry resources (front ++ calls) ≡ true
      → (seen : List Text) × (is_parallelizable_after registry seen calls ≡ true)
  accepted_in resources [] calls h = (resources, h)
  accepted_in resources (f ∷ front) calls h =
      let (r, _, _, rest) = accepted resources f (front ++ calls) h in
      accepted_in (add r resources) front calls rest

  -- Two calls of a batch that may overlap are both calls of audited tools that only read, and their
  -- resources differ.
  pub is_parallelizable_batch-apart :
      (front middle back : List (ToolCall A)) (a b : ToolCall A)
      → is_parallelizable_batch registry (front ++ a ∷ (middle ++ b ∷ back)) ≡ true
      → IsRead a × IsRead b × (resource_of registry a ≢ resource_of registry b)
  unfolding is_parallelizable_batch
  is_parallelizable_batch-apart front middle back a b h =
      let (seen, later) = accepted_in [] front (a ∷ (middle ++ b ∷ back)) h in
      let (r, of_a, _, rest) = accepted seen a (middle ++ b ∷ back) later in
      let (t, of_b, other) =
        accepted_behind (add r seen) middle b back r
          (ground (arith, member-add r r seen, text_eq_refl r)) rest in
      (
        resource_of-IsRead a r of_a,
        resource_of-IsRead b t of_b,
        λ same. ne_of_text_eq r t other (some_inj r t (sym of_a ∙ (same ∙ of_b))),
      )
