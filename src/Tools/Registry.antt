-- ===== src/Tools/Registry.antt =====
-- The dispatch of tool calls (packages/tools/src/registry.ts).
use settlement_ops.Base.{Option, Result, String, err, none, ok, some, ℤ}
use settlement_ops.Tools.{ToolArguments, ToolContext, parse_tool, tool_error, validate_arguments}
use settlement_ops.Tools.Evidence.{
  ArgumentFault, ToolName, ToolResult, bad_argument, thrown, unknown_tool,
}
use settlement_ops.Tools.Handlers.{UnitLoader, handle}

-- `try { return await handler(…) } catch …`
abbrev pub caught : ToolName → Result String ToolResult → ToolResult
caught name (ok result) = result
caught name (err message) = tool_error (some name) (thrown message)

module _ (date_parse : String → Option ℤ) (now : ℤ) (load_unit : UnitLoader) where
  unfoldable pub invoke_valid :
      ToolContext → ToolName → Result ArgumentFault ToolArguments → ToolResult
  invoke_valid ctx name (err fault) = tool_error (some name) (bad_argument fault)
  invoke_valid ctx name (ok args) = caught name (handle date_parse now load_unit name ctx args)

  unfoldable pub invoke : ToolContext → String → ToolArguments → ToolResult
  unfolding invoke_valid
  invoke ctx name args = elim (parse_tool name) [
    | none ↦ tool_error none (unknown_tool name)
    | some tool ↦ invoke_valid ctx tool (validate_arguments date_parse args)
  ]
