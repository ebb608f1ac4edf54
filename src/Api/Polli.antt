-- ===== src/Api/Polli.antt =====
-- The registry and the gateway of services/api/honor_api/polli.py. A JSON value is its text; the
-- validator of jsonschema, the rate limiter and the handlers are arguments. What a call does besides
-- returning is its trace of effects.
pub mod Gateway
pub mod Persistence
use honor.Common.{
  ℕ, String, Bool, true, false, not, ◌&&◌, List, [], ◌∷◌, Option, none, some, is_some, eqb, length,
  Result, ok, err, ◌>>=◌, ◌>>◌, raise_if, ◌==◌, if◌then◌else◌,
}
use honor.Common.Table.{find}
use honor.Common.Platform.{Platform}

-- An entry of `tools`: its schemas, and whether its metadata says `read_only: true`.
pub record Tool : Type 0 where
  pub name : String
  pub read_only : Bool
  pub arguments_schema : String
  pub result_schema : String

pub data PolliError : Type 0 where
  wrong_tool_count : PolliError
  not_read_only : String → PolliError
  invalid_uuid : PolliError
  not_allowlisted : PolliError
  schema_violation : PolliError
  rate_limited : PolliError
  no_handler : PolliError
  handler_failed : PolliError

abbrev pub tool_name : Tool → String
tool_name t = t.name

unfoldable pub check_read_only : List Tool → Result PolliError (Unit {0})
check_read_only [] = ok tt
check_read_only (t ∷ ts) = raise_if (not t.read_only) (not_read_only t.name) >> check_read_only ts

-- `PolliRegistry.__init__`
unfoldable pub registry_of : List Tool → Result PolliError (List Tool)
unfolding check_read_only
registry_of tools = do
  raise_if (not (eqb (length tools) 12)) wrong_tool_count
  check_read_only tools
  ok tools

abbrev pub Handler : Type 0
Handler = String → Result PolliError String

pub record Entry : Type 0 where
  pub tool : String
  pub handler : Handler

abbrev pub entry_key : Entry → String
entry_key e = e.tool

pub record PolliGateway : Type 0 where
  pub tools : List Tool
  pub handlers : List Entry

-- `handlers[name] = handler`: the newest entry is found first.
unfoldable pub register_read_only : String → Handler → PolliGateway → Result PolliError PolliGateway
register_read_only name handler g = do
  raise_if (not (is_some (find tool_name name g.tools))) not_allowlisted
  ok (record g { handlers = record { tool = name; handler = handler } ∷ g.handlers })

pub data Effect : Type 0 where
  limit_checked : (owner_id tool : String) → Effect
  audited : (owner_id tool request_id : String) → Effect
  handled : (tool args : String) → Effect

-- jsonschema's `validate(instance)` on a schema.
abbrev pub Validator : Type 0
Validator = String → String → Bool

abbrev pub Limiter : Type 0
Limiter = String → String → Bool

-- `DenyByDefaultRateLimitHook`
abbrev pub deny_by_default : Limiter
deny_by_default owner_id tool = false

module _ (valid : Validator) where
  unfoldable pub validate : String → String → Result PolliError (Unit {0})
  validate schema value = raise_if (not (valid schema value)) schema_violation

  -- The handler's result, checked.
  unfoldable pub result_of : Tool → Result PolliError String → Result PolliError String
  unfolding validate
  result_of tool (err e) = err e
  result_of tool (ok result) = validate tool.result_schema result >> ok result

  unfoldable pub handle : Tool → String → Option Entry → Result PolliError String × List Effect
  unfolding result_of
  handle tool args none = (err no_handler, [])
  handle tool args (some e) = (result_of tool (e.handler args), handled tool.name args ∷ [])

  -- After the arguments were accepted.
  unfoldable pub admitted :
      Limiter
      → PolliGateway
      → Tool
      → String
      → String
      → String
      → Result PolliError String × List Effect
  unfolding handle
  admitted limiter g tool args owner_id request_id =
      let (result, effects) = handle tool args (find entry_key tool.name g.handlers) in
      if limiter owner_id tool.name
      then (
        result,
        limit_checked owner_id tool.name ∷ audited owner_id tool.name request_id ∷ effects,
      )
      else (err rate_limited, limit_checked owner_id tool.name ∷ [])

  unfoldable pub dispatch :
      Limiter
      → PolliGateway
      → String
      → String
      → String
      → Option Tool
      → Result PolliError String × List Effect
  unfolding admitted
  dispatch limiter g args owner_id request_id none = (err not_allowlisted, [])
  dispatch limiter g args owner_id request_id (some tool) =
      if valid tool.arguments_schema args
      then admitted limiter g tool args owner_id request_id
      else (err schema_violation, [])

  -- `PolliGateway.call`
  unfoldable pub call :
      Platform
      → Limiter
      → PolliGateway
      → String
      → String
      → String
      → String
      → Result PolliError String × List Effect
  unfolding dispatch
  call lib limiter g name args owner_id request_id =
      let outcome = dispatch limiter g args owner_id request_id (find tool_name name g.tools) in
      if is_some (lib.parse_uuid owner_id) && is_some (lib.parse_uuid request_id)
      then outcome
      else (err invalid_uuid, [])
