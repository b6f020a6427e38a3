-- ===== src/Permissions.antt =====
-- packages/core/src/permissions.ts: the permission engine. Sets and lists of names are lists of
-- texts; an absent optional field is `none`.
pub mod Laws
pub mod Grants
mod Tests
use ninjacode_agent.Prelude.{
  get_or, if◌then◌else◌, all, Bool, true, false, not, ◌&&◌, ◌||◌, Option, none, some, List, [], ◌∷◌,
  ◌++◌,
}
use ninjacode_agent.Prelude.Maps.{add}
use ninjacode_agent.Prelude.Texts.{member, Text, codes}

pub data ApprovalMode : Type 0 where
  strict balanced autonomous : ApprovalMode

pub data RiskClass : Type 0 where
  read_only write destructive network shell user : RiskClass

pub data GrantPolicy : Type 0 where
  never exact scoped : GrantPolicy

pub record PermissionDecision : Type 0 where
  pub allowed : Bool
  pub needs_approval : Bool
  pub reason : Text

pub record PermissionPolicy : Type 0 where
  pub mode : ApprovalMode
  pub allowlist : Option (List Text)
  pub denylist : Option (List Text)
  pub grants : Option (List Text)

pub record PermissionCall : Type 0 where
  pub scopes : Option (List Text)
  pub risk : Option RiskClass
  pub grant_policy : Option GrantPolicy

-- What the engine reads of a tool.
pub record Tool : Type 0 where
  pub name : Text
  pub tool_risk : RiskClass

-- A `Partial<PermissionPolicy>`: `none` where the key is absent.
pub record PolicyUpdate : Type 0 where
  pub mode : Option ApprovalMode
  pub allowlist : Option (Option (List Text))
  pub denylist : Option (Option (List Text))
  pub grants : Option (Option (List Text))

unfoldable pub update : PermissionPolicy → PolicyUpdate → PermissionPolicy
update p u = record {
  mode = get_or u.mode p.mode;
  allowlist = get_or u.allowlist p.allowlist;
  denylist = get_or u.denylist p.denylist;
  grants = get_or u.grants p.grants;
}

-- The words of the source for a mode and a risk.
unfoldable pub mode_text : ApprovalMode → Text
mode_text strict = codes "strict"
mode_text balanced = codes "balanced"
mode_text autonomous = codes "autonomous"

unfoldable pub risk_text : RiskClass → Text
risk_text read_only = codes "read_only"
risk_text write = codes "write"
risk_text destructive = codes "destructive"
risk_text network = codes "network"
risk_text shell = codes "shell"
risk_text user = codes "user"

-- `DEFAULT_AUTO[mode].includes(risk)`
unfoldable pub default_auto : ApprovalMode → RiskClass → Bool
default_auto strict read_only = true
default_auto balanced read_only = true
default_auto balanced user = true
default_auto autonomous read_only = true
default_auto autonomous write = true
default_auto autonomous user = true
default_auto autonomous network = true
default_auto _ _ = false

unfoldable pub is_destructive : RiskClass → Bool
is_destructive destructive = true
is_destructive _ = false

unfoldable pub is_never : GrantPolicy → Bool
is_never never = true
is_never _ = false

-- The key under which a grant for a target of a tool is kept.
unfoldable pub grant_key : Text → Text → Text
grant_key tool target = tool ++ b':' ∷ target

unfoldable pub grant : Text → Text → PermissionPolicy → PermissionPolicy
unfolding grant_key
grant tool target p = record p { grants = some (add (grant_key tool target) (get_or p.grants [])) }

-- `list?.includes(name)`
unfoldable pub listed : Option (List Text) → Text → Bool
listed none name = false
listed (some names) name = member name names

abbrev approved : Text → PermissionDecision
approved why = record { allowed = true; needs_approval = false; reason = why }

abbrev asked : Text → PermissionDecision
asked why = record { allowed = true; needs_approval = true; reason = why }

-- `scopes && scopes.length > 0 && scopes.every(s => grants.has(...))`
unfoldable pub scopes_granted : Text → List Text → Option (List Text) → Bool
unfolding grant_key
scopes_granted tool grants none = false
scopes_granted tool grants (some []) = false
scopes_granted tool grants (some (s ∷ scopes)) =
    all (λ scope. member (grant_key tool scope) grants) (s ∷ scopes)

unfoldable pub grant_decision :
    Option (List Text)
    → Text
    → Text
    → Option (List Text)
    → RiskClass
    → GrantPolicy
    → Option PermissionDecision
unfolding grant_key scopes_granted is_never is_destructive
grant_decision none tool target scopes risk policy = none
grant_decision (some grants) tool target scopes risk policy =
    if is_never policy
    then none
    else if member (grant_key tool target) grants
    then some (approved (codes "session grant"))
    else if is_destructive risk
    then none
    else if member (grant_key tool (codes "*")) grants
    then some (approved (codes "session grant"))
    else if scopes_granted tool grants scopes
    then some (approved (codes "session grant (command type)"))
    else none

unfoldable pub is_shell : RiskClass → Bool
is_shell shell = true
is_shell _ = false

unfoldable pub auto_approve_decision : ApprovalMode → RiskClass → Option PermissionDecision
unfolding default_auto is_destructive is_shell risk_text mode_text
auto_approve_decision mode risk =
    if not (default_auto mode risk)
    then (if is_shell risk || is_destructive risk
        then some (asked (risk_text risk ++ codes " requires approval"))
        else none)
    else if is_destructive risk
    then some (asked (codes "destructive action requires approval"))
    else some (approved (codes "auto (" ++ mode_text mode ++ b'/' ∷ risk_text risk ++ codes ")"))

-- `scopes?.length ? "scoped" : "exact"`
unfoldable pub default_grant_policy : Option (List Text) → GrantPolicy
default_grant_policy none = exact
default_grant_policy (some []) = exact
default_grant_policy (some (s ∷ scopes)) = scoped

-- What `evaluate` returns when no list and no grant has decided.
unfoldable pub mode_decision : ApprovalMode → RiskClass → GrantPolicy → PermissionDecision
unfolding auto_approve_decision is_never risk_text mode_text
mode_decision mode risk policy = elim (auto_approve_decision mode risk) [
  | some d ↦
      if d.needs_approval && is_never policy
      then record d { reason = d.reason ++ codes "; dynamic call cannot be remembered" }
      else d
  | none ↦ asked (
      risk_text risk
      ++ (if is_never policy
          then codes " requires per-call approval in "
          else codes " requires approval in ")
      ++ mode_text mode
      ++ codes " mode")
]

unfoldable pub evaluate : PermissionPolicy → Tool → Text → PermissionCall → PermissionDecision
unfolding listed grant_decision mode_decision default_grant_policy is_destructive
evaluate p tool target call =
    let risk = get_or call.risk tool.tool_risk in
    let policy = get_or call.grant_policy (default_grant_policy call.scopes) in
    if listed p.denylist tool.name
    then record {
      allowed = false;
      needs_approval = false;
      reason = codes "Tool " ++ tool.name ++ codes " is denylisted";
    }
    else if not (is_destructive risk) && listed p.allowlist tool.name
    then approved (codes "allowlist")
    else elim (grant_decision p.grants tool.name target call.scopes risk policy) [
      | some d ↦ d
      | none ↦ mode_decision p.mode risk policy
    ]

unfoldable pub default_permission_policy : ApprovalMode → PermissionPolicy
default_permission_policy mode = record {
  mode = mode;
  allowlist = some (codes "write_scratchpad" ∷ codes "todo_write" ∷ codes "write_plan" ∷ []);
  denylist = none;
  grants = some [];
}
