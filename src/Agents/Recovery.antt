-- ===== src/Agents/Recovery.antt =====
-- localagentcli/agents/recovery.py: the classes of failures and the budgets of retries.
pub mod Laws
use local_agent_cli.Base.{
  Bool, Eq, List, Option, String, [], any, ap, false, if◌then◌else◌, leb, list_eq, nat_eq, none,
  refl, some, string_eq, suc, sym, true, zero, ℕ, ◌++◌, ◌+◌, ◌==◌, ◌||◌, ◌∙◌, ◌∷◌, ◌≡◌,
}
use local_agent_cli.Base.Text.{Text, codes, has_substring, replace, starts_with, strip, whitespace}
use local_agent_cli.Base.Dict.{Dict, insert, lookup}
use local_agent_cli.Tools.Base.{ToolResult}
use mathlib.Core.Logic.{dite}

pub data FailureClass : Type 0 where
  model_transient model_terminal tool_timeout tool_denied tool_blocked : FailureClass
  tool_error unknown : FailureClass

-- The place of a class in the enum, by which classes are compared.
abbrev pub place : FailureClass → ℕ
place model_transient = 0
place model_terminal = 1
place tool_timeout = 2
place tool_denied = 3
place tool_blocked = 4
place tool_error = 5
place unknown = 6

abbrev pub class_at : ℕ → FailureClass
class_at zero = model_transient
class_at (suc zero) = model_terminal
class_at (suc (suc zero)) = tool_timeout
class_at (suc (suc (suc zero))) = tool_denied
class_at (suc (suc (suc (suc zero)))) = tool_blocked
class_at (suc (suc (suc (suc (suc zero))))) = tool_error
class_at _ = unknown

pub class_at-place : (c : FailureClass) → class_at (place c) ≡ c
class_at-place model_transient = refl
class_at-place model_terminal = refl
class_at-place tool_timeout = refl
class_at-place tool_denied = refl
class_at-place tool_blocked = refl
class_at-place tool_error = refl
class_at-place unknown = refl

instance unfoldable pub failure_eq : Eq FailureClass
unfolding nat_eq
failure_eq = record {
  dec = λ a b.
      dite (nat_eq.dec (place a) (place b))
        (λ same. yes (sym (class_at-place a) ∙ ap class_at same ∙ class_at-place b))
        (λ differ. no (λ p. differ (ap place p)));
}

unfoldable pub model_transient_keywords : List Text
unfolding codes
model_transient_keywords =
    codes "timeout"
    ∷ codes "timed out"
    ∷ codes "temporar"
    ∷ codes "try again"
    ∷ codes "retry"
    ∷ codes "rate limit"
    ∷ codes "429"
    ∷ codes "503"
    ∷ codes "overload"
    ∷ codes "connection"
    ∷ codes "stream disconnected"
    ∷ []

unfoldable pub model_terminal_keywords : List Text
unfolding codes
model_terminal_keywords =
    codes "unauthorized"
    ∷ codes "forbidden"
    ∷ codes "authentication"
    ∷ codes "api key"
    ∷ codes "invalid request"
    ∷ codes "malformed"
    ∷ codes "unsupported"
    ∷ codes "context window"
    ∷ codes "quota exceeded"
    ∷ codes "permission denied"
    ∷ []

pub record FailureContext : Type 0 where
  pub failure_class : FailureClass
  pub detail : Text

pub record FailureBudgetState : Type 0 where
  pub failure_class : FailureClass
  pub attempt : ℕ
  pub retry_budget : ℕ

unfoldable pub exhausted : FailureBudgetState → Bool
exhausted state = leb state.retry_budget state.attempt

-- `a or b`
abbrev pub or_else : Text → Text → Text
or_else [] b = b
or_else (c ∷ a) b = c ∷ a

abbrev pub context : FailureClass → Text → FailureContext
context failure_class detail = record { failure_class = failure_class; detail = detail }

-- `lower` is `str.lower`, whose tables of letters are not modelled.
unfoldable pub classify_model_failure : (Text → Text) → Option Text → FailureContext
unfolding model_terminal_keywords model_transient_keywords
classify_model_failure lower error_detail =
    let detail = strip whitespace (elim error_detail [ none ↦ [] | some t ↦ t ]) in
    let normalized = lower detail in
    let default = context model_transient (or_else detail (codes "Unknown model error.")) in
    if normalized == []
    then default
    else if any (has_substring normalized) model_terminal_keywords
    then context model_terminal detail
    else if any (has_substring normalized) model_transient_keywords
    then context model_transient detail
    else default

unfoldable pub tool_error_text : ToolResult → Text
tool_error_text result = elim result.error [ none ↦ [] | some t ↦ t ]

unfoldable pub classify_tool_failure : (Text → Text) → ToolResult → Option FailureContext
unfolding tool_error_text
classify_tool_failure lower result =
    let raw = or_else (tool_error_text result) result.summary in
    let summary = strip whitespace result.summary in
    let error = strip whitespace (tool_error_text result) in
    let detail = or_else error (or_else summary (codes "Tool execution failed.")) in
    if result.status == "success"
    then none
    else if result.status == "timeout"
    then some (context tool_timeout (or_else raw (codes "Tool timed out.")))
    else if result.status == "denied"
    then some (context tool_denied (or_else raw (codes "Tool execution denied.")))
    else if result.status == "error"
    then some (
        if starts_with summary (codes "Blocked tool")
          || has_substring (lower (summary ++ 10 ∷ error)) (codes "violated a safety rule")
        then context tool_blocked detail
        else context tool_error detail)
    else some (context unknown (or_else raw (codes "Unknown tool failure.")))

-- `_DEFAULT_RETRY_BUDGETS`
unfoldable pub retry_budget_for_failure : FailureClass → ℕ
retry_budget_for_failure model_transient = 3
retry_budget_for_failure tool_timeout = 2
retry_budget_for_failure tool_error = 2
retry_budget_for_failure _ = 1

-- `_REPLAN_FAILURE_CLASSES`
unfoldable pub should_replan_after_failure : FailureClass → Bool
should_replan_after_failure tool_denied = true
should_replan_after_failure tool_blocked = true
should_replan_after_failure tool_error = true
should_replan_after_failure _ = false

-- `failure_class.value`
unfoldable pub class_value : FailureClass → String
class_value model_transient = "model_transient"
class_value model_terminal = "model_terminal"
class_value tool_timeout = "tool_timeout"
class_value tool_denied = "tool_denied"
class_value tool_blocked = "tool_blocked"
class_value tool_error = "tool_error"
class_value unknown = "unknown"

unfoldable pub failure_class_label : FailureClass → Text
unfolding class_value replace
failure_class_label failure_class = replace b'_' b' ' (codes (class_value failure_class))

unfoldable pub failure_class_hint : FailureClass → Text
failure_class_hint tool_denied =
    codes "Avoid denied actions and prefer a safer, approval-friendly approach."
failure_class_hint tool_blocked =
    codes "Stay within sandbox and workspace safety policy constraints."
failure_class_hint tool_timeout =
    codes "Use narrower or faster tool operations and verify partial output."
failure_class_hint tool_error = codes "Adjust tool arguments and add validation before retrying."
failure_class_hint model_terminal =
    codes "Treat this as terminal model failure; avoid repeating the same request."
failure_class_hint model_transient = codes "Treat this as transient and retry with minimal changes."
failure_class_hint unknown = codes "Handle the failure conservatively and prefer low-risk recovery."

-- `counters.get(failure_class, 0)`
unfoldable pub count_of : FailureClass → Dict FailureClass ℕ → ℕ
count_of failure_class counters = elim (lookup failure_class counters) [ none ↦ 0 | some n ↦ n ]

unfoldable pub update_failure_counters :
    Dict FailureClass ℕ → FailureContext → FailureBudgetState × Dict FailureClass ℕ
unfolding count_of
update_failure_counters counters failure =
    let attempt = count_of failure.failure_class counters + 1 in
    (
      record {
        failure_class = failure.failure_class;
        attempt = attempt;
        retry_budget = retry_budget_for_failure failure.failure_class;
      },
      insert failure.failure_class attempt counters,
    )
