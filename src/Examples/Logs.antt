-- ===== src/Examples/Logs.antt =====
-- A line of the process log.
use ai_k8s_gateway.Base.{◌≡◌, some, [], ◌∷◌, if◌then◌else◌}
use ai_k8s_gateway.Dict
use ai_k8s_gateway.Value.{str}
use ai_k8s_gateway.Logging.{LogRecord, format}
use ai_k8s_gateway.Logging.Laws.{exception_or, is_reserved, standard_of, last_or, get-format}

abbrev crash : LogRecord
crash = record {
  timestamp = "now";
  levelname = "ERROR";
  name = "app.main";
  message = "boom";
  module_name = "main";
  lineno = 12;
  attributes = ("msg", str "boom") ∷ ("request_id", str "id") ∷ ("level", str "mine") ∷ [];
  exception = some "Traceback";
}

get-format_example :
    Dict.get "level" (format crash)
    ≡ exception_or "level" crash.exception (
        if is_reserved "level"
        then standard_of "level" crash
        else last_or "level" (standard_of "level" crash) crash.attributes)
get-format_example = get-format "level" crash
