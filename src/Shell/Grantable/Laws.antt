-- ===== src/Shell/Grantable/Laws.antt =====
-- packages/tools/src/shellScope.ts: what the scopes of a command stand for.
use ninjacode_agent.Prelude.{
  All, ◌≡◌, refl, sym, ap, subst, ◌∙◌, ◌≢◌, true, false, ◌||◌, Option, none, some, List, [], ◌∷◌,
  ◌++◌, arith,
}
use ninjacode_agent.Prelude.Texts.{member, Text, text_eq_refl, text_eq, text_eq→≡}
use ninjacode_agent.Shell.Grantable.{
  shell_grant_scopes, scope_round, segment_scope, collect_scopes, is_non_grantable_shell_command,
  with_scope,
}
use ninjacode_agent.Shell.Scan.{canonicalize_shell_command, split_shell_segments}

member-append : (k : Text) (xs ys : List Text) → member k (xs ++ ys) ≡ member k xs || member k ys
unfolding member
member-append k [] ys = refl
member-append k (x ∷ xs) ys = ground (arith, member-append k xs ys)

member-with_scope :
    (k scope : Text) (scopes : List Text)
    → member k (with_scope scope scopes) ≡ member k scopes || text_eq scope k
unfolding member
member-with_scope k scope scopes = ground (
  arith,
  member-append k scopes (scope ∷ []),
  λ (e : text_eq scope k ≡ true). ap (λ t. member t scopes) (text_eq→≡ scope k e),
)

-- Every segment has a scope, which is among the scopes.
abbrev pub IsCovered : List Text → List Text → Type 0
IsCovered scopes segments =
    All
      (λ (segment : Text).
        (scope : Text) × (segment_scope segment ≡ some scope) × (member scope scopes ≡ true))
      segments

scope_round-step :
    (next : List Text → List Text) (o : Option Text) (scopes : List Text)
    → scope_round next o scopes ≢ []
    → (scope : Text) × (o ≡ some scope)
      × (scope_round next o scopes ≡ next (with_scope scope scopes))
unfolding scope_round
scope_round-step next none scopes found = absurd (found refl)
scope_round-step next (some scope) scopes found = (scope, refl, ground arith)

collect_scopes-keeps :
    (segments scopes : List Text) (k : Text)
    → collect_scopes segments scopes ≢ []
    → member k scopes ≡ true
    → member k (collect_scopes segments scopes) ≡ true
unfolding collect_scopes
collect_scopes-keeps [] scopes k found h = h
collect_scopes-keeps (segment ∷ segments) scopes k found h =
    let (scope, e, step) =
      scope_round-step (collect_scopes segments) (segment_scope segment) scopes found in
    rw step (
      collect_scopes-keeps segments (with_scope scope scopes) k (rw (sym step) found)
        (member-with_scope k scope scopes ∙ ground arith))

collect_scopes-IsCovered :
    (segments scopes : List Text)
    → collect_scopes segments scopes ≢ []
    → IsCovered (collect_scopes segments scopes) segments
unfolding collect_scopes
collect_scopes-IsCovered [] scopes _ = tt
collect_scopes-IsCovered (segment ∷ segments) scopes found =
    let (scope, e, step) =
      scope_round-step (collect_scopes segments) (segment_scope segment) scopes found in
    let further : collect_scopes segments (with_scope scope scopes) ≢ [] = rw (sym step) found in
    subst (λ out. IsCovered out (segment ∷ segments)) (sym step)
      (
        (
          scope,
          e,
          collect_scopes-keeps segments (with_scope scope scopes) scope further
              (member-with_scope scope scope scopes ∙ ground (arith, text_eq_refl scope)),
        ),
        collect_scopes-IsCovered segments (with_scope scope scopes) further,
      )

shell_grant_scopes-collects :
    (command : Text)
    → shell_grant_scopes command ≢ []
    → (is_non_grantable_shell_command (canonicalize_shell_command command) ≡ false)
      × (shell_grant_scopes command
          ≡ collect_scopes (split_shell_segments (canonicalize_shell_command command)) [])
unfolding shell_grant_scopes
shell_grant_scopes-collects command found = ground arith

-- If a command has scopes at all, then it is nothing that may not be remembered, and each of its
-- segments has its scope among them.
pub shell_grant_scopes-IsCovered :
    (command : Text)
    → shell_grant_scopes command ≢ []
    → (is_non_grantable_shell_command (canonicalize_shell_command command) ≡ false)
      × IsCovered
          (shell_grant_scopes command)
          (split_shell_segments (canonicalize_shell_command command))
unfolding shell_grant_scopes
shell_grant_scopes-IsCovered command found =
    let trimmed = canonicalize_shell_command command in
    let (fixed, e) = shell_grant_scopes-collects command found in
    (fixed, rw e (collect_scopes-IsCovered (split_shell_segments trimmed) [] (rw (sym e) found)))
