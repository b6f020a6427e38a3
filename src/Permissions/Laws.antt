-- ===== src/Permissions/Laws.antt =====
-- When the engine of permissions.ts lets a call run without asking.
use ninjacode_agent.Permissions.{
  Tool, destructive, scopes_granted, default_grant_policy, listed, strict, never, balanced,
  is_never, autonomous, GrantPolicy, PermissionDecision, RiskClass, ApprovalMode, grant_key, shell,
  PermissionPolicy, PermissionCall, evaluate,
}
use ninjacode_agent.Prelude.{
  get_or, ◌≡◌, refl, Bool, true, false, not, ◌&&◌, ◌||◌, Option, none, some, List, [], ◌∷◌, arith,
}
use ninjacode_agent.Prelude.Texts.{member, Text, codes}

-- The call runs without an approval prompt.
abbrev pub is_automatic : PermissionDecision → Bool
is_automatic d = d.allowed && not d.needs_approval

-- The risk and the grant policy that a call is judged by.
abbrev pub effective_risk : Tool → PermissionCall → RiskClass
effective_risk tool call = get_or call.risk tool.tool_risk

abbrev pub effective_policy : PermissionCall → GrantPolicy
effective_policy call = get_or call.grant_policy (default_grant_policy call.scopes)

abbrev pub held : PermissionPolicy → Text → Text → Bool
held p tool target = listed p.grants (grant_key tool target)

-- A call is refused exactly if its tool is on the denylist; every other call is allowed, if need be
-- after approval.
pub evaluate-allowed :
    (p : PermissionPolicy) (tool : Tool) (target : Text) (call : PermissionCall)
    → (evaluate p tool target call).allowed ≡ not (listed p.denylist tool.name)
unfolding evaluate
evaluate-allowed p tool target call = ground arith

-- A destructive call runs without approval exactly if its tool is not denylisted, the call may be
-- remembered, and a grant for this very target is held: no allowlist, no mode, no grant for the
-- whole tool and no grant by command type lets it through.
pub evaluate-destructive :
    (p : PermissionPolicy) (tool : Tool) (target : Text) (call : PermissionCall)
    → effective_risk tool call ≡ destructive
    → is_automatic (evaluate p tool target call) ≡ (
        not (listed p.denylist tool.name)
        && (not (is_never (effective_policy call)) && held p tool.name target))
unfolding evaluate
evaluate-destructive p tool target call h = ground arith

pub scopes_granted_none :
    (tool : Text) (scopes : Option (List Text)) → scopes_granted tool [] scopes ≡ false
unfolding scopes_granted member
scopes_granted_none tool none = refl
scopes_granted_none tool (some []) = refl
scopes_granted_none tool (some (s ∷ scopes)) = refl

-- A shell call never runs without approval by the mode alone: its tool is on the allowlist, or a
-- grant for the target, the whole tool or all its command types is held and may be remembered.
pub evaluate-shell :
    (p : PermissionPolicy) (tool : Tool) (target : Text) (call : PermissionCall)
    → effective_risk tool call ≡ shell
    → is_automatic (evaluate p tool target call) ≡ (
        not (listed p.denylist tool.name)
        && (listed p.allowlist tool.name
            || (not (is_never (effective_policy call))
                && (held p tool.name target
                    || (held p tool.name (codes "*")
                        || scopes_granted tool.name (get_or p.grants []) call.scopes)))))
unfolding evaluate
evaluate-shell p tool target call h = ground (arith, scopes_granted_none tool.name call.scopes)

-- The modes are ordered: what one lets run without approval, the next does too, for the same lists,
-- grants and call.
pub evaluate_mode_mono :
    (p : PermissionPolicy) (tool : Tool) (target : Text) (call : PermissionCall)
    → let at =
        λ (m : ApprovalMode). is_automatic (evaluate (record p { mode = m }) tool target call) in
      (at strict ≡ true → at balanced ≡ true) × (at balanced ≡ true → at autonomous ≡ true)
unfolding evaluate
evaluate_mode_mono p tool target call = (ground arith, ground arith)

-- Where a call may not be remembered, the grants held make no difference to the decision.
pub evaluate_never :
    (p : PermissionPolicy) (tool : Tool) (target : Text) (call : PermissionCall)
    (other : Option (List Text))
    → effective_policy call ≡ never
    → evaluate p tool target call ≡ evaluate (record p { grants = other }) tool target call
unfolding evaluate
evaluate_never p tool target call other h = ground arith
