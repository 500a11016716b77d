-- ===== src/Logging/Laws.antt =====
-- app/audit/structured_logger.py: what a line of the log holds under each key.
use ai_k8s_gateway.Base.{
  String, ◌||◌, not, List, All, contains-All, contains, starts_with, eq_iff, Bool-cases, inl, inr,
  lookup, subst, ◌≡◌, refl, Bool, true, false, ◌&&◌, Option, none, some, [], ◌∷◌, if◌then◌else◌,
  ◌==◌, ap, ◌∙◌,
}
use ai_k8s_gateway.Dict
use ai_k8s_gateway.Dict.{Dict}
use ai_k8s_gateway.Dict.Laws.{get-put}
use ai_k8s_gateway.Value.{Value, int, str, Params}
use ai_k8s_gateway.Base.Int.{pos}
use ai_k8s_gateway.Logging.{
  LogRecord, standard_attrs, is_extra, standard_fields, add_extras, add_exception, format,
}

-- The last extra attribute of that name, or else what was there.
abbrev extra_or : (key : String) → Option Value → Params → Option Value
extra_or key before [] = before
extra_or key before ((k, v) ∷ rest) =
    extra_or key (if is_extra k && k == key then some v else before) rest

abbrev pub exception_or : (key : String) → Option String → Option Value → Option Value
exception_or key none before = before
exception_or key (some text) before = if "exception" == key then some (str text) else before

get-put_if :
    (b : Bool) (k key : String) (v : Value) (d : Dict Value)
    → Dict.get key (if b then Dict.put k v d else d)
      ≡ (if b && k == key then some v else Dict.get key d)
get-put_if true k key v d = get-put k key v d
get-put_if false k key v d = refl

get-add_extras :
    (key : String) (attributes : Params) (d : Dict Value)
    → Dict.get key (add_extras attributes d) ≡ extra_or key (Dict.get key d) attributes
unfolding add_extras
get-add_extras key [] d = refl
get-add_extras key ((k, v) ∷ rest) d =
    get-add_extras key rest (if is_extra k then Dict.put k v d else d)
    ∙ ap (λ o. extra_or key o rest) (get-put_if (is_extra k) k key v d)

get-add_exception :
    (key : String) (e : Option String) (d : Dict Value)
    → Dict.get key (add_exception e d) ≡ exception_or key e (Dict.get key d)
unfolding add_exception
get-add_exception key none d = refl
get-add_exception key (some text) d = get-put "exception" key (str text) d

-- The specification of the standard fields.
abbrev pub standard_of : (key : String) → LogRecord → Option Value
standard_of key r =
    if "line" == key
    then some (int (pos r.lineno))
    else if "module" == key
    then some (str r.module_name)
    else if "message" == key
    then some (str r.message)
    else if "logger" == key
    then some (str r.name)
    else if "level" == key
    then some (str r.levelname)
    else if "timestamp" == key
    then some (str r.timestamp)
    else none

-- The last attribute of that name, or else what was there.
abbrev pub last_or : (key : String) → Option Value → Params → Option Value
last_or key before [] = before
last_or key before ((k, v) ∷ rest) = last_or key (if k == key then some v else before) rest

-- The attributes that Python's logging documents of a record.
abbrev pub logging_names : List String
logging_names =
    "args" ∷ "created" ∷ "exc_info" ∷ "exc_text" ∷ "filename" ∷ "funcName" ∷ "levelname" ∷ "levelno"
    ∷ "lineno" ∷ "message" ∷ "module" ∷ "msecs" ∷ "msg" ∷ "name" ∷ "pathname" ∷ "process"
    ∷ "processName" ∷ "relativeCreated" ∷ "stack_info" ∷ "thread" ∷ "threadName" ∷ []

-- These names, and those that start with an underscore.
abbrev pub is_reserved : String → Bool
is_reserved key = contains logging_names key || starts_with key "_"

get-empty : (key : String) → Dict.get {V = Value} key Dict.empty ≡ none
unfolding Dict.get Dict.empty lookup
get-empty key = refl

get-standard_fields :
    (key : String) (r : LogRecord) → Dict.get key (standard_fields r) ≡ standard_of key r
unfolding standard_fields
get-standard_fields key r = rw (
  get-put "line" key _ _,
  get-put "module" key _ _,
  get-put "message" key _ _,
  get-put "logger" key _ _,
  get-put "level" key _ _,
  get-put "timestamp" key _ _,
  get-empty key,
)

neither : (a b c : Bool) → ((not a && not b) && c) ≡ (not (a || b) && c)
neither true b c = refl
neither false b c = refl

ends_false : (b c : Bool) → (b && false) ≡ (c && false)
ends_false true true = refl
ends_false true false = refl
ends_false false true = refl
ends_false false false = refl

-- The code's table has the same names, in another order.
attrs_named : All (λ n. contains logging_names n ≡ true) standard_attrs
unfolding contains
attrs_named = (
  refl,
  (
    refl,
    (
      refl,
      (
        refl,
        (
          refl,
          (
            refl,
            (
              refl,
              (
                refl,
                (
                  refl,
                  (
                    refl,
                    (
                      refl,
                      (
                        refl,
                        (refl, (refl, (refl, (refl, (refl, (refl, (refl, (refl, (refl, tt))))))))),
                      ),
                    ),
                  ),
                ),
              ),
            ),
          ),
        ),
      ),
    ),
  ),
)

names_listed : All (λ n. contains standard_attrs n ≡ true) logging_names
unfolding contains
names_listed = (
  refl,
  (
    refl,
    (
      refl,
      (
        refl,
        (
          refl,
          (
            refl,
            (
              refl,
              (
                refl,
                (
                  refl,
                  (
                    refl,
                    (
                      refl,
                      (
                        refl,
                        (refl, (refl, (refl, (refl, (refl, (refl, (refl, (refl, (refl, tt))))))))),
                      ),
                    ),
                  ),
                ),
              ),
            ),
          ),
        ),
      ),
    ),
  ),
)

same_if : (a b : Bool) → (a ≡ true → b ≡ true) → (b ≡ true → a ≡ true) → a ≡ b
same_if a true h k = k refl
same_if true false h k = cc (h refl)
same_if false false h k = refl

same_names : (key : String) → contains standard_attrs key ≡ contains logging_names key
same_names key =
    same_if (contains standard_attrs key) (contains logging_names key)
      (contains-All (λ n. contains logging_names n ≡ true) standard_attrs key attrs_named)
      (contains-All (λ n. contains standard_attrs n ≡ true) logging_names key names_listed)

-- An attribute of that name is taken unless the name is reserved.
extra_named : (k key : String) → (is_extra k && k == key) ≡ (not (is_reserved key) && k == key)
unfolding is_extra
extra_named k key = elim (Bool-cases (k == key)) [
  | inl same ↦
      subst (λ n. (is_extra k && k == n) ≡ (not (is_reserved n) && k == n)) ((eq_iff k key).0 same)
        (rw (same_names k) (neither (contains logging_names k) (starts_with k "_") (k == k)))
  | inr other ↦ rw other (ends_false (is_extra k) (not (is_reserved key)))
]

extra_or-reserved :
    (key : String) (before : Option Value) (attributes : Params)
    → is_reserved key ≡ true
    → extra_or key before attributes ≡ before
extra_or-reserved key before [] h = refl
extra_or-reserved key before ((k, v) ∷ rest) h =
    rw (extra_named k key, h) (extra_or-reserved key before rest h)

extra_or-free :
    (key : String) (before : Option Value) (attributes : Params)
    → is_reserved key ≡ false
    → extra_or key before attributes ≡ last_or key before attributes
extra_or-free key before [] h = refl
extra_or-free key before ((k, v) ∷ rest) h =
    rw (extra_named k key, h) (extra_or-free key (if k == key then some v else before) rest h)

-- Under each key a line of the process log holds the exception's text, if the key is exception
-- and there is one. Otherwise, under a name that is reserved, as one of logging's own or by an
-- underscore in front, it holds the standard field of that name, if there is one; and under any
-- other name the last attribute of that name, or else the standard field. The standard fields
-- are timestamp, level, logger, message, module and line.
pub get-format :
    (key : String) (r : LogRecord)
    → Dict.get key (format r)
      ≡ exception_or key r.exception (
          if is_reserved key
          then standard_of key r
          else last_or key (standard_of key r) r.attributes)
unfolding format
get-format key r =
    get-add_exception key r.exception (add_extras r.attributes (standard_fields r))
    ∙ ap (exception_or key r.exception) (
        get-add_extras key r.attributes (standard_fields r)
        ∙ ap (λ o. extra_or key o r.attributes) (get-standard_fields key r)
        ∙ by_name (is_reserved key) refl)
  where
    by_name :
        (b : Bool)
        → is_reserved key ≡ b
        → extra_or key (standard_of key r) r.attributes
          ≡ (if b then standard_of key r else last_or key (standard_of key r) r.attributes)
    by_name true h = extra_or-reserved key (standard_of key r) r.attributes h
    by_name false h = extra_or-free key (standard_of key r) r.attributes h
