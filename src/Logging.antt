-- ===== src/Logging.antt =====
-- app/audit/structured_logger.py: the JSON object of a log record. The record's attributes, the clock's
-- text and the text of an exception come from Python's logging; the JSON text is left out.
pub mod Laws
pub mod Setup
use ai_k8s_gateway.Base.{
  ℕ, String, Bool, true, false, not, ◌&&◌, Option, none, some, List, [], ◌∷◌, if◌then◌else◌,
  contains, starts_with,
}
use ai_k8s_gateway.Base.Int.{pos}
use ai_k8s_gateway.Dict
use ai_k8s_gateway.Dict.{Dict}
use ai_k8s_gateway.Value.{Value, str, int, Params}

-- `attributes` is `record.__dict__`; `exception` is what formatException gives for `exc_info`.
pub record LogRecord : Type 0 where
  pub timestamp : String
  pub levelname : String
  pub name : String
  pub message : String
  pub module_name : String
  pub lineno : ℕ
  pub attributes : Params
  pub exception : Option String

abbrev pub standard_attrs : List String
standard_attrs =
    "name" ∷ "msg" ∷ "args" ∷ "levelname" ∷ "levelno" ∷ "pathname" ∷ "filename" ∷ "module"
    ∷ "exc_info" ∷ "exc_text" ∷ "stack_info" ∷ "lineno" ∷ "funcName" ∷ "created" ∷ "msecs"
    ∷ "relativeCreated" ∷ "thread" ∷ "threadName" ∷ "processName" ∷ "process" ∷ "message" ∷ []

unfoldable pub is_extra : String → Bool
is_extra key = not (contains standard_attrs key) && not (starts_with key "_")

-- The six fields that every line has.
unfoldable pub standard_fields : LogRecord → Dict Value
standard_fields r = Dict.put "line" (int (pos r.lineno)) (
    Dict.put "module" (str r.module_name) (
      Dict.put "message" (str r.message) (
        Dict.put "logger" (str r.name) (
          Dict.put "level" (str r.levelname) (Dict.put "timestamp" (str r.timestamp) Dict.empty)))))

-- The loop over the attributes.
unfoldable pub add_extras : Params → Dict Value → Dict Value
add_extras [] fields = fields
add_extras ((key, value) ∷ rest) fields =
    add_extras rest (if is_extra key then Dict.put key value fields else fields)

unfoldable pub add_exception : Option String → Dict Value → Dict Value
add_exception none fields = fields
add_exception (some text) fields = Dict.put "exception" (str text) fields

-- `JSONFormatter.format`
unfoldable pub format : LogRecord → Dict Value
format r = add_exception r.exception (add_extras r.attributes (standard_fields r))
