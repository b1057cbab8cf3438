-- ===== src/Agents/Triage.antt =====
-- localagentcli/agents/triage.py: which way a task is taken. The blocking and the asynchronous
-- classifier are this one, with the model's answer given.
use local_agent_cli.Base.{
  Bool, Bool-cases, List, Option, String, [], any, arith, contains, false, if◌then◌else◌, inl, inr,
  keep, leb, length, list_eq, ltb, nat_eq, none, not, some, string_eq, true, ◌&&◌, ◌++◌, ◌==◌, ◌||◌,
  ◌∷◌, ◌≡◌,
}
use local_agent_cli.Base.Text.{
  Text, codes, ends_with, has_substring, join, starts_with, strip, whitespace,
}
use local_agent_cli.Base.Result.{Result, attribute_error, err, ok}
use local_agent_cli.Base.Json.{Json, get, obj}
use local_agent_cli.Models.{ModelMessage, plain_message}
use local_agent_cli.Agents.ContextWindow.{recent_context_with_system}

-- `json.loads`, `str`, `str.lower`, and the three searches by a regular expression: a text that is
-- arithmetic, a text with a word such as "and", and the braces of a text with what is between.
pub record TriageTexts : Type 0 where
  pub loads : Text → Result Json
  pub str_of : Json → Text
  pub lower : Text → Text
  pub is_arithmetic : Text → Bool
  pub has_staging_word : Text → Bool
  pub braced : Text → Option Text

pub data TaskTriageOutcome : Type 0 where
  direct_answer single_step_task multi_step_task : TaskTriageOutcome

pub record TaskTriage : Type 0 where
  pub outcome : TaskTriageOutcome
  pub reason : Text

abbrev pub triage : TaskTriageOutcome → String → TaskTriage
triage outcome reason = record { outcome = outcome; reason = codes reason }

unfoldable pub direct_prefixes : List Text
unfolding codes
direct_prefixes =
    codes "what is"
    ∷ codes "who is"
    ∷ codes "what are"
    ∷ codes "who are"
    ∷ codes "explain"
    ∷ codes "describe"
    ∷ codes "define"
    ∷ codes "summarize"
    ∷ codes "tell me"
    ∷ codes "how does"
    ∷ codes "why does"
    ∷ codes "what model are you"
    ∷ []

unfoldable pub direct_words : List Text
unfolding codes
direct_words =
    codes "what" ∷ codes "who" ∷ codes "when" ∷ codes "where" ∷ codes "why" ∷ codes "how" ∷ []

unfoldable pub multi_step_hints : List Text
unfolding codes
multi_step_hints =
    codes "implement"
    ∷ codes "refactor"
    ∷ codes "debug"
    ∷ codes "fix"
    ∷ codes "review"
    ∷ codes "audit"
    ∷ codes "analyze"
    ∷ codes "investigate"
    ∷ []

unfoldable pub single_step_hints : List Text
unfolding codes
single_step_hints =
    codes "create"
    ∷ codes "update"
    ∷ codes "edit"
    ∷ codes "modify"
    ∷ codes "write"
    ∷ codes "add"
    ∷ codes "remove"
    ∷ codes "replace"
    ∷ codes "rename"
    ∷ codes "inspect"
    ∷ codes "read"
    ∷ codes "show"
    ∷ codes "list"
    ∷ codes "run tests"
    ∷ codes "run the tests"
    ∷ []

-- `text.split()`: the words between white space; `word` is what is read of the current one.
unfoldable pub words_from : Text → Text → List Text
words_from word [] = if word == [] then [] else word ∷ []
words_from word (c ∷ t) =
    let blank = contains whitespace c in
    let rest = words_from (if blank then [] else word ++ (c ∷ [])) t in
    if blank && not (word == []) then word ∷ rest else rest

abbrev pub hints_in : List Text → Text → List Text
hints_in hints text = keep (has_substring text) hints

abbrev pub has_prefix : List Text → Text → Bool
has_prefix prefixes text = any (starts_with text) prefixes

abbrev pub first_is : List Text → List Text → Bool
first_is words [] = false
first_is words (word ∷ rest) = contains words word

-- The request is long, staged, or names much work.
unfoldable pub is_staged : TriageTexts → Text → Text → Text → Bool
unfolding multi_step_hints single_step_hints
is_staged texts task normalized lowered =
    contains task 10
    || ltb 160 (length normalized)
    || texts.has_staging_word lowered
    || any (has_substring lowered) multi_step_hints
    || leb 2 (length (hints_in single_step_hints lowered))

unfoldable pub is_question : Text → Bool
unfolding direct_prefixes multi_step_hints single_step_hints
is_question lowered =
    (ends_with lowered (codes "?") || has_prefix direct_prefixes lowered)
    && not (any (has_substring lowered) (multi_step_hints ++ single_step_hints))

unfoldable pub is_explaining : Text → Bool
is_explaining lowered =
    has_prefix (codes "explain " ∷ codes "describe " ∷ codes "summarize " ∷ codes "define " ∷ [])
      lowered

-- The tests in their order; the last two are whether the request is staged and whether it has a hint.
unfoldable pub first_triage : Bool → Bool → Bool → Bool → Bool → Bool → Bool → Option TaskTriage
first_triage empty arithmetic question factual explaining staged hinted =
    if empty
    then some (triage direct_answer "empty input")
    else if arithmetic
    then some (triage direct_answer "simple arithmetic")
    else if question
    then some (triage direct_answer "question-like prompt")
    else if factual
    then some (triage direct_answer "short factual question")
    else if explaining
    then some (triage direct_answer "explanatory prompt")
    else if staged
    then some (triage multi_step_task "complex or staged request")
    else if hinted
    then some (triage single_step_task "single concrete action")
    else none

unfoldable pub classify_heuristically : TriageTexts → Text → Option TaskTriage
unfolding first_triage words_from is_staged is_question is_explaining direct_words single_step_hints
classify_heuristically texts task =
    let normalized = join (b' ' ∷ []) (words_from [] (strip whitespace task)) in
    let lowered = texts.lower normalized in
    let words = words_from [] lowered in
    first_triage (lowered == []) (texts.is_arithmetic lowered) (is_question lowered)
      (leb (length words) 8 && first_is direct_words words) (is_explaining lowered)
      (is_staged texts task normalized lowered) (any (has_substring lowered) single_step_hints)

abbrev pub triage_fallback : TaskTriage
triage_fallback = triage single_step_task "triage fallback"

unfoldable pub extract_json : TriageTexts → Text → Option Text
extract_json texts text =
    let stripped = strip whitespace text in
    if stripped == []
    then none
    else if starts_with stripped (codes "{") && ends_with stripped (codes "}")
    then some stripped
    else texts.braced stripped

abbrev pub outcome_of : Text → TaskTriageOutcome
outcome_of name =
    if name == codes "direct_answer"
    then direct_answer
    else if name == codes "multi_step_task"
    then multi_step_task
    else single_step_task

-- `str(parsed.get(key, default)).strip()`
abbrev pub stripped_or : TriageTexts → Text → Option Json → Text
stripped_or texts default none = strip whitespace default
stripped_or texts default (some j) = strip whitespace (texts.str_of j)

-- A payload that is no object has no `get`.
abbrev pub from_payload : TriageTexts → Result Json → Result TaskTriage
from_payload texts (err e) = ok triage_fallback
from_payload texts (ok (obj parsed)) = ok (record {
  outcome = outcome_of (stripped_or texts (codes "single_step_task") (get "classification" parsed));
  reason = stripped_or texts [] (get "reason" parsed);
})
from_payload texts (ok _) = err (attribute_error (codes "object has no attribute 'get'"))

abbrev pub from_answer : TriageTexts → Option Text → Result TaskTriage
from_answer texts none = ok triage_fallback
from_answer texts (some payload) = from_payload texts (texts.loads payload)

-- `prompt` is `_TRIAGE_PROMPT`; `generate` is the model's text.
unfoldable pub classify_with_model :
    TriageTexts → Text → (List ModelMessage → Text) → Text → List ModelMessage → Result TaskTriage
unfolding extract_json recent_context_with_system
classify_with_model texts prompt generate task context = from_answer texts (
    extract_json texts (
      generate (
        plain_message "system" prompt
        ∷ (recent_context_with_system context 6 ++ (plain_message "user" task ∷ [])))))

unfoldable pub classify :
    TriageTexts → Text → (List ModelMessage → Text) → Text → List ModelMessage → Result TaskTriage
unfolding classify_heuristically classify_with_model
classify texts prompt generate task context = elim (classify_heuristically texts task) [
  | some heuristic ↦ ok heuristic
  | none ↦ classify_with_model texts prompt generate task context
]

length-keep :
    (p : Text → Bool) (xs : List Text) → any p xs ≡ true → (length (keep p xs) == 0) ≡ false
length-keep p [] h = cc
length-keep p (x ∷ xs) h = elim (Bool-cases (p x)) [
  | inl here ↦ ground (arith, here)
  | inr later ↦ ground (arith, later, length-keep p xs (ground (arith, h, later)))
]

-- The single step is the last case.
first_triage-single :
    (empty arithmetic question factual explaining staged hinted : Bool) (t : TaskTriage)
    → first_triage empty arithmetic question factual explaining staged hinted ≡ some t
    → t.outcome ≡ single_step_task
    → (staged ≡ false) × (hinted ≡ true)
unfolding first_triage
first_triage-single empty arithmetic question factual explaining staged hinted t h single =
    (ground (arith, h, single), ground (arith, h, single))

not_staged :
    (texts : TriageTexts) (task normalized lowered : Text)
    → is_staged texts task normalized lowered ≡ false
    → (contains task 10 ≡ false)
      × (any (has_substring lowered) multi_step_hints ≡ false)
      × (leb 2 (length (hints_in single_step_hints lowered)) ≡ false)
unfolding is_staged
not_staged texts task normalized lowered h =
    (ground (arith, h), ground (arith, h), ground (arith, h))

-- What makes a request one concrete action.
pub record IsSingle (texts : TriageTexts) (task : Text) : Type 0 where
  pub one_line : contains task 10 ≡ false
  pub one_hint :
      length (
        hints_in single_step_hints
          (texts.lower (join (b' ' ∷ []) (words_from [] (strip whitespace task)))))
      ≡ 1
  pub no_multi_step_hint :
      any
        (has_substring (texts.lower (join (b' ' ∷ []) (words_from [] (strip whitespace task)))))
        multi_step_hints
      ≡ false

-- A request that the heuristics take for a single step is one line, and holds exactly one of the hints
-- at a single step and none of the hints at several.
pub classify_heuristically-IsSingle :
    (texts : TriageTexts) (task : Text) (t : TaskTriage)
    → classify_heuristically texts task ≡ some t
    → t.outcome ≡ single_step_task
    → IsSingle texts task
unfolding classify_heuristically
classify_heuristically-IsSingle texts task t h single =
    let normalized = join (b' ' ∷ []) (words_from [] (strip whitespace task)) in
    let lowered = texts.lower normalized in
    let words = words_from [] lowered in
    let (plain, hinted) =
      first_triage-single (lowered == []) (texts.is_arithmetic lowered) (is_question lowered)
        (leb (length words) 8 && first_is direct_words words) (is_explaining lowered)
        (is_staged texts task normalized lowered) (any (has_substring lowered) single_step_hints) t
        h single in
    let (one_line, no_multi, few) = not_staged texts task normalized lowered plain in
    record {
      one_line = one_line;
      one_hint = ground (arith, few, length-keep (has_substring lowered) single_step_hints hinted);
      no_multi_step_hint = no_multi;
    }
