-- ===== src/Api/Polli/Persistence.antt =====
-- `PolliPersistence` of services/api/honor_api/polli.py: the tables `polli_sessions` and
-- `polli_tool_calls`. `uuid4()`, the clock and the digest are arguments; JSON values are texts.
use honor.Common.{ℕ, String, List, Option, none, some, Result, ok, err, ◌>>=◌}
use honor.Common.Table.{insert}
use honor.Common.Platform.{Platform}
use honor.Api.Polli.{PolliError, invalid_uuid}

pub record SessionRow : Type 0 where
  pub id : String
  pub user_id : String
  pub mode : String
  pub started_at : ℕ
  pub backend_model_route : String
  pub retention_mode : String
  pub status : String

pub record ToolCallRow : Type 0 where
  pub id : String
  pub session_id : String
  pub turn_id : Option String
  pub tool_name : String
  pub tool_version : ℕ
  pub arguments_json : String
  pub result_digest : String
  pub result_summary_json : String
  pub authorized_by : String
  pub started_at : ℕ
  pub finished_at : ℕ
  pub status : String

-- The arguments of `record_tool_call`.
pub record ToolCall : Type 0 where
  pub session_id : String
  pub turn_id : Option String
  pub tool_name : String
  pub args : String
  pub result_summary : String
  pub owner_id : String
  pub started_at : ℕ
  pub finished_at : ℕ

module _ (lib : Platform) where
  -- A parameter for a uuid column, and for a nullable one.
  unfoldable pub uuid_parameter : String → Result PolliError String
  uuid_parameter text = elim (lib.parse_uuid text) [ none ↦ err invalid_uuid | some u ↦ ok u ]

  unfoldable pub optional_uuid : Option String → Result PolliError (Option String)
  unfolding uuid_parameter
  optional_uuid none = ok none
  optional_uuid (some text) = uuid_parameter text >>= λ u. ok (some u)

  unfoldable pub start_session :
      String
      → ℕ
      → String
      → String
      → String
      → List SessionRow
      → Result PolliError (String × List SessionRow)
  unfolding uuid_parameter
  start_session id now owner_id mode backend_model_route rows =
      uuid_parameter owner_id >>= λ user_id. ok (
        id,
        insert
            (record {
              id = id;
              user_id = user_id;
              mode = mode;
              started_at = now;
              backend_model_route = backend_model_route;
              retention_mode = "TRANSCRIPT_SUMMARY";
              status = "ACTIVE";
            })
            rows,
      )

  unfoldable pub record_tool_call :
      (String → String)
      → String
      → ToolCall
      → List ToolCallRow
      → Result PolliError (String × List ToolCallRow)
  unfolding uuid_parameter optional_uuid
  record_tool_call digest id c rows = do
    session_id ← uuid_parameter c.session_id
    turn_id ← optional_uuid c.turn_id
    authorized_by ← uuid_parameter c.owner_id
    ok (
      id,
      insert
          (record {
            id = id;
            session_id = session_id;
            turn_id = turn_id;
            tool_name = c.tool_name;
            tool_version = 1;
            arguments_json = c.args;
            result_digest = digest c.result_summary;
            result_summary_json = c.result_summary;
            authorized_by = authorized_by;
            started_at = c.started_at;
            finished_at = c.finished_at;
            status = "SUCCEEDED";
          })
          rows,
    )
