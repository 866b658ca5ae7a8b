-- ===== src/Tests/Routes.antt =====
-- Routes for the runs, over the numbers in place of DuckDB's values.
use quackapi.Base.{[]}
use quackapi.Text.{Text, codes}
use quackapi.Types.{Route}

abbrev pub route_of_method : {V : Type 0} → Text → Text → Text → Route V
route_of_method name method pattern = record {
  name = name;
  method = method;
  pattern = pattern;
  handler_sql = codes "SELECT 1";
  status = 200;
  require_auth = [];
  params = [];
  body_schema = [];
  body_type = [];
  group_name = [];
  tags = [];
  max_request_bytes = 0;
  rate_limit_n = 0;
  rate_limit_per_sec = 0;
  rate_limit_by = [];
  response_format = [];
  response_envelope = [];
  empty_status = 0;
  empty_body = [];
  timeout_sec = 0;
  schedule = [];
}
