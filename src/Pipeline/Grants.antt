-- ===== src/Pipeline/Grants.antt =====
-- toolPipelineHelpers.ts, `rememberGrant`: what a remembered approval covers.
use ninjacode_agent.Permissions.{
  scopes_granted, listed, is_destructive, is_never, grant_decision, GrantPolicy, grant,
  PermissionDecision, RiskClass, grant_key, PermissionPolicy, evaluate,
}
use ninjacode_agent.Permissions.Laws.{is_automatic}
use ninjacode_agent.Pipeline.Approval.{
  grant_each, is_empty, remember_grant, decision_on, is_exact, ApprovalCheck,
}
use ninjacode_agent.Prelude.{
  if-holds, get_or, if◌then◌else◌, all, ◌≡◌, refl, sym, ap, subst, ◌∙◌, Bool, true, false, not,
  ◌||◌, Option, none, some, List, [], ◌∷◌, arith,
}
use ninjacode_agent.Prelude.Maps.{member-add}
use ninjacode_agent.Prelude.Texts.{member, Text, text_eq_refl, text_eq}

abbrev holds : Text → PermissionPolicy → Bool
holds key p = member key (get_or p.grants [])

holds-grant :
    (key tool target : Text) (p : PermissionPolicy)
    → holds key (grant tool target p) ≡ (text_eq (grant_key tool target) key || holds key p)
unfolding grant
holds-grant key tool target p = member-add (grant_key tool target) key (get_or p.grants [])

holds-grant_each :
    (key tool : Text) (scopes : List Text) (p : PermissionPolicy)
    → holds key p ≡ true
    → holds key (grant_each tool scopes p) ≡ true
unfolding grant_each
holds-grant_each key tool [] p h = h
holds-grant_each key tool (s ∷ scopes) p h =
    holds-grant_each key tool scopes (grant tool s p) (ground (arith, holds-grant key tool s p))

-- Every scope that was granted is held.
all-grant_each :
    (tool : Text) (scopes : List Text) (p : PermissionPolicy)
    → all (λ scope. holds (grant_key tool scope) (grant_each tool scopes p)) scopes ≡ true
unfolding grant_each
all-grant_each tool [] p = refl
all-grant_each tool (s ∷ scopes) p =
    let now_held =
      holds-grant_each (grant_key tool s) tool scopes (grant tool s p) (
        ground (arith, holds-grant (grant_key tool s) tool s p, text_eq_refl (grant_key tool s))) in
    rw now_held (all-grant_each tool scopes (grant tool s p))

-- Granting changes the grants alone.
grant_each-grants :
    (tool s : Text) (scopes : List Text) (p : PermissionPolicy)
    → ((grant_each tool scopes (grant tool s p)).grants
        ≡ some (get_or (grant_each tool scopes (grant tool s p)).grants []))
      × ((grant_each tool scopes (grant tool s p)).denylist ≡ p.denylist)
unfolding grant_each grant
grant_each-grants tool s [] p = (refl, refl)
grant_each-grants tool s (t ∷ scopes) p = grant_each-grants tool t scopes (grant tool s p)

abbrev is_granted : Option PermissionDecision → Bool
is_granted none = false
is_granted (some d) = is_automatic d

-- A call whose target, or all of whose scopes, are held is granted.
grant_decision-target :
    (gs : List Text) (tool target : Text) (scopes : Option (List Text)) (risk : RiskClass)
    (policy : GrantPolicy)
    → is_never policy ≡ false
    → member (grant_key tool target) gs ≡ true
    → is_granted (grant_decision (some gs) tool target scopes risk policy) ≡ true
unfolding grant_decision
grant_decision-target gs tool target scopes risk policy n h = ground arith

grant_decision-scopes :
    (gs : List Text) (tool target s : Text) (scopes : List Text) (risk : RiskClass)
    (policy : GrantPolicy)
    → is_never policy ≡ false
    → is_destructive risk ≡ false
    → all (λ scope. member (grant_key tool scope) gs) (s ∷ scopes) ≡ true
    → is_granted (grant_decision (some gs) tool target (some (s ∷ scopes)) risk policy) ≡ true
unfolding grant_decision scopes_granted
grant_decision-scopes gs tool target s scopes risk policy n d h = ground arith

module _ {A : Type 0} (c : ApprovalCheck A) (p : PermissionPolicy) where
  decision_on-granted :
      is_granted
          (grant_decision p.grants c.tool.name c.target (some c.scopes) c.risk c.grant_policy)
        ≡ true
      → is_automatic (decision_on c p) ≡ not (listed p.denylist c.tool.name)
  unfolding decision_on evaluate
  decision_on-granted h = ground arith

  -- The target alone is granted.
  remembered_target :
      (q : PermissionPolicy)
      → q ≡ grant c.tool.name c.target p
      → is_never c.grant_policy ≡ false
      → is_granted
          (grant_decision q.grants c.tool.name c.target (some c.scopes) c.risk c.grant_policy)
        ≡ true
  unfolding grant
  remembered_target q e n =
      subst
        (λ (q : PermissionPolicy).
          is_granted
            (grant_decision q.grants c.tool.name c.target (some c.scopes) c.risk c.grant_policy)
          ≡ true)
        (sym e)
        (grant_decision-target _ c.tool.name c.target (some c.scopes) c.risk c.grant_policy n (
          ground (
            arith,
            holds-grant (grant_key c.tool.name c.target) c.tool.name c.target p,
            text_eq_refl (grant_key c.tool.name c.target),
          )))

  -- The scopes are granted.
  remembered_scopes :
      (s : Text) (scopes : List Text)
      → is_never c.grant_policy ≡ false
      → is_destructive c.risk ≡ false
      → is_granted (
          grant_decision
            (grant_each c.tool.name (s ∷ scopes) p).grants
            c.tool.name
            c.target
            (some (s ∷ scopes))
            c.risk
            c.grant_policy)
        ≡ true
  unfolding grant_each
  remembered_scopes s scopes n d =
      let q = grant_each c.tool.name (s ∷ scopes) p in
      let (kept, _) = grant_each-grants c.tool.name s scopes p in
      rw kept (
        grant_decision-scopes (get_or q.grants []) c.tool.name c.target s scopes c.risk
          c.grant_policy n d (all-grant_each c.tool.name (s ∷ scopes) p))

  remembered_nonempty :
      (scopes : List Text)
      → is_empty scopes ≡ false
      → is_never c.grant_policy ≡ false
      → is_destructive c.risk ≡ false
      → is_granted (
          grant_decision
            (grant_each c.tool.name scopes p).grants
            c.tool.name
            c.target
            (some scopes)
            c.risk
            c.grant_policy)
        ≡ true
  unfolding is_empty
  remembered_nonempty [] m n d = ground arith
  remembered_nonempty (s ∷ scopes) m n d = remembered_scopes s scopes n d

  remember_grant-granted :
      is_never c.grant_policy ≡ false
      → (is_exact c.grant_policy || (is_empty c.scopes || not (is_destructive c.risk))) ≡ true
      → is_granted (
          grant_decision
            (remember_grant c true p).grants
            c.tool.name
            c.target
            (some c.scopes)
            c.risk
            c.grant_policy)
        ≡ true
  unfolding remember_grant
  remember_grant-granted n covers =
      let name = c.tool.name in
      let goal = λ (q : PermissionPolicy).
        is_granted (grant_decision q.grants name c.target (some c.scopes) c.risk c.grant_policy)
        ≡ true in
      if-holds goal (is_never c.grant_policy) p
        (if is_exact c.grant_policy || is_empty c.scopes
          then grant name c.target p
          else grant_each name c.scopes p)
        (λ never_so. ground arith)
        (λ _.
          if-holds goal (is_exact c.grant_policy || is_empty c.scopes) (grant name c.target p)
            (grant_each name c.scopes p) (λ _. remembered_target (grant name c.target p) refl n)
            (λ m. remembered_nonempty c.scopes (ground arith) n (ground arith)))

denylist-grant_each :
    (tool : Text) (scopes : List Text) (p : PermissionPolicy)
    → (grant_each tool scopes p).denylist ≡ p.denylist
unfolding grant_each grant
denylist-grant_each tool [] p = refl
denylist-grant_each tool (s ∷ scopes) p = denylist-grant_each tool scopes (grant tool s p)

denylist-remember_grant :
    {A : Type 0} (c : ApprovalCheck A) (remember : Bool) (p : PermissionPolicy)
    → (remember_grant c remember p).denylist ≡ p.denylist
unfolding remember_grant grant
denylist-remember_grant c remember p =
    if-holds (λ (q : PermissionPolicy). q.denylist ≡ p.denylist)
      (not remember || is_never c.grant_policy) p _ (λ _. refl)
      (λ _.
        if-holds (λ (q : PermissionPolicy). q.denylist ≡ p.denylist)
          (is_exact c.grant_policy || is_empty c.scopes) (grant c.tool.name c.target p) _
          (λ _. refl) (λ _. denylist-grant_each c.tool.name c.scopes p))

-- Once an approval is remembered, the same call runs without asking, unless its tool is denylisted;
-- it is assumed that the call may be remembered, and that a destructive one is remembered by its
-- target and not by its scopes. A call that may never be remembered leaves the policy as it was.
pub remember_grant-automatic :
    {A : Type 0} (c : ApprovalCheck A) (p : PermissionPolicy)
    → (is_exact c.grant_policy || (is_empty c.scopes || not (is_destructive c.risk))) ≡ true
    → (is_never c.grant_policy ≡ false
        → is_automatic (decision_on c (remember_grant c true p))
          ≡ not (listed p.denylist c.tool.name))
      × (is_never c.grant_policy ≡ true → remember_grant c true p ≡ p)
unfolding remember_grant
remember_grant-automatic c p covers = (
  λ n.
      decision_on-granted c (remember_grant c true p) (remember_grant-granted c p n covers)
      ∙ ap (λ denied. not (listed denied c.tool.name)) (denylist-remember_grant c true p),
  λ n. rw n refl,
)
