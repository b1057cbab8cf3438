-- ===== src/Agents/Loop/Step/Outcome.antt =====
-- localagentcli/agents/loop.py: what a step keeps between its rounds, and what a round comes to.
use local_agent_cli.Base.{
  Bool, List, Option, String, [], false, if◌then◌else◌, list_eq, nat_eq, none, not, some, string_eq,
  true, ℕ, ◌++◌, ◌==◌, ◌∷◌,
}
use local_agent_cli.Base.Text.{Text, codes, strip, whitespace}
use local_agent_cli.Base.Dict.{Dict}
use local_agent_cli.Base.Result.{message}
use local_agent_cli.Base.Gen.{Gen}
use local_agent_cli.Base.Json.{
  Fields, Items, Json, arr, cons, end, field, get, nil, obj, str, truthy,
}
use local_agent_cli.Platform.{Platform}
use local_agent_cli.Models.{GenerationResult, ModelMessage, plain_message}
use local_agent_cli.Agents.Events.{AgentEvent}
use local_agent_cli.Agents.Plan.{PlanStep}
use local_agent_cli.Agents.Recovery.{FailureClass, FailureContext, context, unknown}
use local_agent_cli.Agents.Loop.Base.{Core, GuardianContext}
use local_agent_cli.Agents.Loop.Sequential.{Handled}
use local_agent_cli.Agents.Loop.Prompt.{summarize_observations}
use local_agent_cli.Base.Result.{message}

abbrev pub stripped_text : Option Json → Text
stripped_text (some (str t)) = strip whitespace t
stripped_text _ = []

unfoldable pub model_error_detail : GenerationResult → Text
model_error_detail result = stripped_text (get "error" result.usage)

abbrev pub objects : List Fields → Items
objects [] = nil
objects (fields ∷ rest) = cons (obj fields) (objects rest)

-- What `_run_step` keeps between its rounds.
pub record StepState : Type 0 where
  pub conversation : List ModelMessage
  pub failure_counters : Dict FailureClass ℕ
  pub last_attempt_count : ℕ
  pub last_model_error : Text
  pub failure_context : Option FailureContext

pub record StepDone : Type 0 where
  pub summary : Option Text
  pub new_messages : List ModelMessage
  pub errors : ℕ
  pub failure_kind : String
  pub last_model_error : Text
  pub failure_context : Option FailureContext

abbrev pub done : Option Text → String → StepState → StepDone
done summary failure_kind st = record {
  summary = summary;
  new_messages = st.conversation;
  errors = st.last_attempt_count;
  failure_kind = failure_kind;
  last_model_error = st.last_model_error;
  failure_context = st.failure_context;
}

abbrev pub first_state : StepState
first_state = record {
  conversation = [];
  failure_counters = [];
  last_attempt_count = 0;
  last_model_error = [];
  failure_context = none;
}

abbrev pub is_empty : List ModelMessage → Bool
is_empty [] = true
is_empty (message ∷ rest) = false

-- What a round comes to: another round, or the end of the step.
pub data Next : Type 0 where
  again : StepState → Next
  finished : StepDone → Next

abbrev pub error_messages : Option Json → List ModelMessage
error_messages none = []
error_messages (some j) =
    if truthy j
    then record { role = "assistant"; content = []; metadata = field "error" j end } ∷ []
    else []

-- The error is remembered, and told to the model.
unfoldable pub after_error : GenerationResult → StepState → StepState
unfolding model_error_detail
after_error result st =
    let detail = model_error_detail result in
    record st {
      conversation = st.conversation ++ error_messages (get "error" result.usage);
      last_model_error = if detail == [] then st.last_model_error else detail;
    }

-- The messages that a handler adds, and the failure that it reports.
abbrev pub Handler : Platform → Type 0
Handler P =
    Option GuardianContext
    → List Fields
    → Gen (Core P) AgentEvent (List ModelMessage × Option FailureContext)

-- The message with the calls.
abbrev pub with_calls : GenerationResult → StepState → StepState
with_calls result st = record st {
  conversation =
      st.conversation
      ++ (record {
        role = "assistant";
        content = result.text;
        metadata = field "tool_calls" (arr (objects result.tool_calls)) end;
      }
          ∷ []);
}

abbrev pub step_context : Text → PlanStep → List ModelMessage → StepState → GuardianContext
step_context task step transcript st = record {
  task = task;
  step_index = step.index;
  step_description = step.description;
  transcript = transcript;
  conversation = st.conversation;
}

-- `had_error` without a failure is an unknown failure.
abbrev pub reported : Handled → Option FailureContext
reported handled = elim handled.failure [
  | some failure ↦ some failure
  | none ↦
      (if handled.had_error then some (context unknown (codes "Unknown tool failure.")) else none)
]

-- An answer without calls: its text ends the step, and so does a blank one after anything else.
unfoldable pub answer_text : GenerationResult → StepState → Next
unfolding summarize_observations
answer_text result st =
    let text = strip whitespace result.text in
    if not (text == [])
    then finished (
        done (some text) "" (record st {
          conversation = st.conversation ++ (plain_message "assistant" result.text ∷ []);
        }))
    else if not (is_empty st.conversation)
    then finished (done (some (summarize_observations st.conversation)) "" st)
    else again st
