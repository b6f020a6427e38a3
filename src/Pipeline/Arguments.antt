-- ===== src/Pipeline/Arguments.antt =====
-- toolPipeline.ts with the validation of toolErrors.ts: what is known of the arguments that a tool is
-- executed with.
mod Tests
use ninjacode_agent.Pipeline.{Thrown, Tool, tool_error, invalid_args, Deps}
use ninjacode_agent.Prelude.{Option, none, some, ◌++◌}
use ninjacode_agent.Prelude.Texts.{Text, codes}
use ninjacode_agent.Schema.{Entries, Platform, Issue}
use ninjacode_agent.Schema.Validate.{
  validate_tool_arguments, Rejection, truncated_arguments, mismatch,
}

-- The schema of each tool is `inputSchema`; the words for an issue are an argument.
module _ {N : Type 0} (js : Platform N) (schema_of : Tool (Entries N) → Entries N)
    (issue_text : Issue → Text) where
  unfoldable pub thrown_for : Tool (Entries N) → Rejection → Thrown
  thrown_for tool truncated_arguments =
      tool_error invalid_args (codes "Arguments contain truncated JSON and are incomplete.")
  thrown_for tool (mismatch issue) = tool_error invalid_args (
      codes "Arguments for "
      ++ tool.name
      ++ codes " do not match inputSchema: "
      ++ issue_text issue)

  -- What `validateToolArguments` throws.
  unfoldable pub thrown_by : Tool (Entries N) → Option Rejection → Option Thrown
  unfolding thrown_for
  thrown_by tool none = none
  thrown_by tool (some rejection) = some (thrown_for tool rejection)

  unfoldable pub validated : Tool (Entries N) → Entries N → Option Thrown
  unfolding thrown_by validate_tool_arguments
  validated tool args = thrown_by tool (validate_tool_arguments js (schema_of tool) args)

  module _ {W : Type 0} (deps : Deps W (Entries N)) where
    -- The pipeline that validates by the schemas.
    abbrev pub validating : Deps W (Entries N)
    validating = record deps { validate = validated }
