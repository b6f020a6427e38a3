-- ===== src/Permissions/Grants.antt =====
-- Session grants of permissions.ts: what a grant adds, and what it leaves alone.
use ninjacode_agent.Permissions.{
  Tool, scopes_granted, listed, is_destructive, is_never, grant_decision, GrantPolicy, grant,
  RiskClass, grant_key, PermissionPolicy, PermissionCall, evaluate,
}
use ninjacode_agent.Permissions.Laws.{
  effective_risk, is_automatic, effective_policy, scopes_granted_none, held,
}
use ninjacode_agent.Prelude.{
  get_or, ◌==◌, Bool-cases, all, ◌≡◌, refl, ◌≢◌, inl, inr, Bool, false, not, ◌&&◌, ◌||◌, Option,
  none, some, List, [], ◌∷◌, arith,
}
use ninjacode_agent.Prelude.Maps.{add, member-add}
use ninjacode_agent.Prelude.Texts.{member, Text, text_eq_refl, text_eq, codes, text_eq→≡}

unfoldable pub has_colon : Text → Bool
has_colon [] = false
has_colon (c ∷ s) = c == b':' || has_colon s

-- With no colon in the tools' names a key tells tool and target apart.
grant_key_injective :
    (a b s t : Text)
    → has_colon a ≡ false
    → has_colon b ≡ false
    → grant_key a s ≡ grant_key b t
    → a ≡ b
unfolding grant_key has_colon
grant_key_injective [] [] s t p q e = refl
grant_key_injective [] (c ∷ b) s t p q e = ground arith
grant_key_injective (c ∷ a) [] s t p q e = ground arith
grant_key_injective (c ∷ a) (d ∷ b) s t p q e = ground (arith, grant_key_injective a b s t)

text_eq-grant_key :
    (a b s t : Text)
    → has_colon a ≡ false
    → has_colon b ≡ false
    → a ≢ b
    → text_eq (grant_key a s) (grant_key b t) ≡ false
text_eq-grant_key a b s t p q n = elim (Bool-cases (text_eq (grant_key a s) (grant_key b t))) [
  | inl e ↦ absurd (n (grant_key_injective a b s t p q (text_eq→≡ _ _ e)))
  | inr e ↦ e
]

module _ (name target : Text) (grants : List Text) where
  member_granted :
      (tool t : Text)
      → has_colon name ≡ false
      → has_colon tool ≡ false
      → name ≢ tool
      → member (grant_key tool t) (add (grant_key name target) grants)
        ≡ member (grant_key tool t) grants
  member_granted tool t p q n = ground (
    arith,
    member-add (grant_key name target) (grant_key tool t) grants,
    text_eq-grant_key name tool target t p q n,
  )

  all_granted :
      (tool : Text) (scopes : List Text)
      → has_colon name ≡ false
      → has_colon tool ≡ false
      → name ≢ tool
      → all (λ scope. member (grant_key tool scope) (add (grant_key name target) grants)) scopes
        ≡ all (λ scope. member (grant_key tool scope) grants) scopes
  all_granted tool [] p q n = refl
  all_granted tool (s ∷ scopes) p q n =
      ground (arith, member_granted tool s p q n, all_granted tool scopes p q n)

  scopes_granted_other :
      (tool : Text) (scopes : Option (List Text))
      → has_colon name ≡ false
      → has_colon tool ≡ false
      → name ≢ tool
      → scopes_granted tool (add (grant_key name target) grants) scopes
        ≡ scopes_granted tool grants scopes
  unfolding scopes_granted
  scopes_granted_other tool none p q n = refl
  scopes_granted_other tool (some []) p q n = refl
  scopes_granted_other tool (some (s ∷ scopes)) p q n = all_granted tool (s ∷ scopes) p q n

listed_empty : (name : Text) → member name [] ≡ false
unfolding member
listed_empty name = refl

grant_decision-grant_other :
    (grants : Option (List Text)) (name target tool t : Text) (scopes : Option (List Text))
    (risk : RiskClass) (policy : GrantPolicy)
    → has_colon name ≡ false
    → has_colon tool ≡ false
    → name ≢ tool
    → grant_decision
        (some (add (grant_key name target) (get_or grants [])))
        tool
        t
        scopes
        risk
        policy
      ≡ grant_decision grants tool t scopes risk policy
unfolding grant_decision
grant_decision-grant_other none name target tool t scopes risk policy q r n = ground (
  arith,
  member_granted name target [] tool t q r n,
  member_granted name target [] tool (codes "*") q r n,
  scopes_granted_other name target [] tool scopes q r n,
  scopes_granted_none tool scopes,
  listed_empty (grant_key tool t),
  listed_empty (grant_key tool (codes "*")),
)
grant_decision-grant_other (some gs) name target tool t scopes risk policy q r n = ground (
  arith,
  member_granted name target gs tool t q r n,
  member_granted name target gs tool (codes "*") q r n,
  scopes_granted_other name target gs tool scopes q r n,
)

-- A grant for one tool changes no decision about another tool, where neither name has a colon.
pub evaluate-grant_other :
    (p : PermissionPolicy) (name target : Text) (tool : Tool) (t : Text) (call : PermissionCall)
    → has_colon name ≡ false
    → has_colon tool.name ≡ false
    → name ≢ tool.name
    → evaluate (grant name target p) tool t call ≡ evaluate p tool t call
unfolding evaluate grant
evaluate-grant_other p name target tool t call q r n = rw (
    grant_decision-grant_other p.grants name target tool.name t call.scopes
      (effective_risk tool call) (effective_policy call) q r n)

-- After a grant for a target, a call of the tool on that target runs without approval, whatever its
-- risk, if the tool is not denylisted and the call may be remembered. Where it may not, the
-- decision is what it was.
pub evaluate-grant_self :
    (p : PermissionPolicy) (tool : Tool) (target : Text) (call : PermissionCall)
    → is_automatic (evaluate (grant tool.name target p) tool target call) ≡ (
        not (listed p.denylist tool.name)
        && (not (is_never (effective_policy call)) || is_automatic (evaluate p tool target call)))
unfolding evaluate grant
evaluate-grant_self p tool target call = ground (
  arith,
  member-add (grant_key tool.name target) (grant_key tool.name target) (get_or p.grants []),
  text_eq_refl (grant_key tool.name target),
)

-- A grant for a whole tool lets every call of it run that may be remembered, except destructive
-- ones: for those it counts on the target "*" alone.
pub evaluate-grant_all :
    (p : PermissionPolicy) (tool : Tool) (t : Text) (call : PermissionCall)
    → listed p.denylist tool.name ≡ false
    → is_never (effective_policy call) ≡ false
    → is_automatic (evaluate (grant tool.name (codes "*") p) tool t call) ≡ (
        not (is_destructive (effective_risk tool call))
        || (text_eq (grant_key tool.name (codes "*")) (grant_key tool.name t)
            || held p tool.name t))
unfolding evaluate grant
evaluate-grant_all p tool t call d n = ground (
  arith,
  member-add (grant_key tool.name (codes "*")) (grant_key tool.name t) (get_or p.grants []),
  member-add (grant_key tool.name (codes "*")) (grant_key tool.name (codes "*"))
      (get_or p.grants []),
  text_eq_refl (grant_key tool.name (codes "*")),
  listed_empty (grant_key tool.name t),
)
