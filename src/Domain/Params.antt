-- ===== src/Domain/Params.antt =====
-- web/src/domain.ts: parseTaskParams.
use mini_drop_test.Base.{String, Option, none, some, truthy, if◌then◌else◌}
use mini_drop_test.Domain.Records.{TaskParams, RequestParams, absent, text, given}

abbrev pub no_params : TaskParams
no_params = record {
  pid = none;
  duration = none;
  hz = none;
  callgraph = none;
  subprocess = none;
  event = none;
  cron_expr = none;
}

-- What `JSON.parse` makes of a text: it throws, it returns null, or it returns a value whose fields
-- are read.
pub data Parsed : Type 0 where
  throws : Parsed
  null : Parsed
  value : TaskParams → Parsed

-- `none` is the value null, which `JSON.parse` returns for the text null.
abbrev of_parsed : Parsed → Option TaskParams
of_parsed throws = some no_params
of_parsed null = none
of_parsed (value p) = some p

module _ (json_parse : String → Parsed) where
  unfoldable pub parse_task_params : RequestParams → Option TaskParams
  parse_task_params absent = some no_params
  parse_task_params (text s) = if truthy s then of_parsed (json_parse s) else some no_params
  parse_task_params (given p) = some p
