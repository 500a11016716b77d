-- ===== src/Logging/Setup.antt =====
-- app/audit/structured_logger.py: the set-up of the process log.
use ai_k8s_gateway.Base.{
  ℕ, Bool, true, List, [], ◌∷◌, ◌++◌, ◌≡◌, refl, ap, ◌∙◌, eqb, if◌then◌else◌, arith,
}
use ai_k8s_gateway.Dict
use ai_k8s_gateway.Dict.{Dict}

-- A handler object: which it is, and whether its formatter is JSONFormatter.
pub record Handler : Type 0 where
  pub id : ℕ
  pub json : Bool

-- The root logger, and the levels that other loggers were given.
pub record Loggers : Type 0 where
  pub level : ℕ
  pub handlers : List Handler
  pub levels : Dict ℕ

-- `removeHandler`
remove : ℕ → List Handler → List Handler
remove id [] = []
remove id (h ∷ hs) = let rest = remove id hs in if eqb h.id id then hs else h ∷ rest

-- The loop over a copy of the handlers.
remove_all : (copy handlers : List Handler) → List Handler
remove_all [] handlers = handlers
remove_all (h ∷ copy) handlers = remove_all copy (remove h.id handlers)

abbrev info : ℕ
info = 20

abbrev warning : ℕ
warning = 30

-- `new` is the handler that is created.
setup_structured_logging : (new level : ℕ) → Loggers → Loggers
setup_structured_logging new level l = record {
  level = level;
  handlers = remove_all l.handlers l.handlers ++ record { id = new; json = true } ∷ [];
  levels = Dict.put "uvicorn.error" info (Dict.put "uvicorn.access" warning l.levels);
}

remove-head : (h : Handler) (hs : List Handler) → remove h.id (h ∷ hs) ≡ hs
unfolding remove
remove-head h hs = ground arith

remove_all_self : (hs : List Handler) → remove_all hs hs ≡ []
unfolding remove_all
remove_all_self [] = refl
remove_all_self (h ∷ hs) = ap (remove_all hs) (remove-head h hs) ∙ remove_all_self hs

-- Whatever handlers there were, one remains, and its lines are JSON objects.
setup_structured_logging-handlers :
    (new level : ℕ) (l : Loggers)
    → (setup_structured_logging new level l).handlers ≡ record { id = new; json = true } ∷ []
unfolding setup_structured_logging
setup_structured_logging-handlers new level l =
    ap (λ hs. hs ++ record { id = new; json = true } ∷ []) (remove_all_self l.handlers)
