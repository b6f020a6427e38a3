-- ===== src/Permissions/Tests.antt =====
-- The engine of permissions.ts on concrete inputs, and its theorems there.
use ninjacode_agent.Permissions.{
  Tool, destructive, scopes_granted, listed, never, is_never, autonomous, shell, PermissionPolicy,
  PermissionCall, evaluate,
}
use ninjacode_agent.Permissions.Laws.{
  is_automatic, effective_policy, evaluate-shell, evaluate-destructive, held,
}
use ninjacode_agent.Prelude.{
  get_or, ◌≡◌, refl, ◌≢◌, true, false, not, ◌&&◌, ◌||◌, none, some, [], ◌∷◌,
}
use ninjacode_agent.Prelude.Texts.{member, text_eq, codes, ne_of_text_eq}

abbrev git_tool : Tool
git_tool = record { name = codes "run_shell"; tool_risk = shell }

abbrev force_push : PermissionCall
force_push = record {
  scopes = some (codes "git push" ∷ []);
  risk = some destructive;
  grant_policy = none;
}

abbrev list_files : PermissionCall
list_files = record { scopes = some (codes "ls" ∷ []); risk = none; grant_policy = none }

abbrev generated : PermissionCall
generated = record { scopes = none; risk = none; grant_policy = some never }

abbrev granted : PermissionPolicy
granted = record {
  mode = autonomous;
  allowlist = some [];
  denylist = none;
  grants = some (codes "run_shell:*" ∷ codes "run_shell:ls" ∷ []);
}

-- A grant for the whole tool does not cover a destructive call.
force_push_asks :
    is_automatic (evaluate granted git_tool (codes "git push --force") force_push) ≡ false
unfolding evaluate member text_eq
force_push_asks = refl

ls_runs : is_automatic (evaluate granted git_tool (codes "ls -l") list_files) ≡ true
unfolding evaluate member text_eq
ls_runs = refl

evaluate-destructive_example :
    is_automatic (evaluate granted git_tool (codes "git push") force_push) ≡ (
      not (listed granted.denylist git_tool.name)
      && (not (is_never (effective_policy force_push))
          && held granted git_tool.name (codes "git push")))
evaluate-destructive_example =
    evaluate-destructive granted git_tool (codes "git push") force_push refl

evaluate-shell_example : is_automatic (evaluate granted git_tool (codes "ls") list_files) ≡ (
    not (listed granted.denylist git_tool.name)
    && (listed granted.allowlist git_tool.name
        || (not (is_never (effective_policy list_files))
            && (held granted git_tool.name (codes "ls")
                || (held granted git_tool.name (codes "*")
                    || scopes_granted git_tool.name
                        (get_or granted.grants [])
                        list_files.scopes)))))
evaluate-shell_example = evaluate-shell granted git_tool (codes "ls") list_files refl

names_differ : codes "edit_file" ≢ codes "run_shell"
unfolding text_eq
names_differ = ne_of_text_eq (codes "edit_file") (codes "run_shell") refl
