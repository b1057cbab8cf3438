-- ===== src/Tests/Loops.antt =====
-- Runs of the agent loop: a model that first calls a tool that is not there, and then answers.
use local_agent_cli.Base.{
  List, Option, String, [], all, any, arith, false, length, list_eq, map, nat_eq, none, refl, some,
  string_eq, suc, true, zero, ℕ, ◌*◌, ◌+◌, ◌∷◌, ◌≡◌, ◌≢◌, ◌≤◌, ◌⊎◌,
}
use local_agent_cli.Base.Text.{Text, codes, lstrip, strip}
use local_agent_cli.Base.Result.{Result, err, ok, value_error}
use local_agent_cli.Base.Dict.{insert}
use local_agent_cli.Base.Gen.{quiet}
use local_agent_cli.Base.Json.{Fields, Json, end, field, get, null, num, obj, str}
use local_agent_cli.Models.{GenerationResult, ModelMessage, plain_message}
use local_agent_cli.Agents.ContextWindow.{
  is_system, recent_context_with_system, recent_context_with_system-keeps_system,
}
use local_agent_cli.Tools.Base.{error_result, success}
use local_agent_cli.Tools.Adaptation.{adapt_tool_definitions, coerce_positive_int, definitions_loop}
use local_agent_cli.Tools.Registry.{
  Registered, get_tool_definitions, list_registered, list_tools, register, register_builtin,
}
use local_agent_cli.Tools.Registry.Laws.{Routed, builtin, empty_router, fresh, updated}
use local_agent_cli.Safety.Posture.{workspace_write}
use local_agent_cli.Safety.Approval.{approval_manager}
use local_agent_cli.Safety.Boundary.{WorkspaceBoundary}
use local_agent_cli.Safety.Rollback.{Codec, RollbackManager}
use local_agent_cli.Safety.Layer.{safety_layer}
use local_agent_cli.Guardian.{Texts}
use local_agent_cli.Agents.Plan.{
  find, TaskPlan, get_step, new_step, next_step, update_first, update_step,
}
use local_agent_cli.Agents.Loop.{
  Core, Env, Implementation, get_tool_text, key_of, normalize_tool_call, tool_of, unknown_tool,
}
use local_agent_cli.Agents.Loop.Sequential.{
  Handled, handle_tool_calls_sequential, nothing_handled, sequential_call,
}
use local_agent_cli.Agents.Loop.Batch.{ahandle_tool_calls, handle_tool_calls}
use local_agent_cli.Agents.Loop.Mirror.{handle_tool_calls-ahandle_tool_calls}
use local_agent_cli.Agents.Loop.Consent.{IsAllowed, sequential_call-IsAllowed}
use local_agent_cli.Agents.Loop.Messages.{answers_to, call_ids, has_failure}
use local_agent_cli.Agents.Loop.Answers.{handle_tool_calls-AreAnswers}
use local_agent_cli.Agents.Loop.Step.{StepDone, arun_step, run_step}
use local_agent_cli.Agents.Loop.StepLaws.{run_step-arun_step}
use local_agent_cli.Agents.Loop.Budget.{AsksAtMost, run_step-generations}
use local_agent_cli.Agents.Loop.Replan.{bootstrap_plan, is_completed}
use local_agent_cli.Agents.Loop.Run.{Task}
use local_agent_cli.Agents.Loop.Turns.{run}
use local_agent_cli.Agents.Loop.Turning.{is_replanning}
use local_agent_cli.Agents.Loop.Completing.{run-completed, run-finishes}
use local_agent_cli.Agents.Loop.Completion.{pending_count}
use local_agent_cli.Tests.Platforms.{flat}

text_of : Json → Text
text_of (str t) = t
text_of _ = []

abbrev texts : Texts
texts = record {
  loads = λ t. err (value_error (codes "no document"));
  dumps = λ j. [];
  str_of = text_of;
  lower = λ t. t;
}

abbrev workspace : WorkspaceBoundary flat
workspace = record { root = codes "/w" }

abbrev codec : Codec
codec = record { dumps = λ j. []; loads = λ t. ok null; int_of = λ j. ok 0; str_of = text_of }

abbrev manager : RollbackManager flat
manager = record { session_id = codes "s"; storage = codes "/b"; codec = codec }

abbrev file_read : Registered (Implementation flat)
file_read = record {
  tool = record {
    name = "file_read";
    description = [];
    parameters_schema = obj (field "type" (str (codes "object")) end);
    requires_approval = false;
    is_read_only = true;
    required_model_capabilities = [];
    minimum_model_default_max_tokens = 0;
  };
  implementation = λ arguments disk. (success (codes "read") (codes "text") none [], disk);
}

abbrev calling : String → Fields
calling name = field "id" (str (codes "c1")) (field "name" (str (codes name)) end)

-- The answers: a call, then a text.
answer : ℕ → GenerationResult
answer zero = record {
  text = [];
  reasoning = [];
  tool_calls = calling "nothing" ∷ [];
  usage = end;
  finish_reason = "tool_calls";
}
answer (suc n) = record {
  text = codes "Done.";
  reasoning = [];
  tool_calls = [];
  usage = end;
  finish_reason = "stop";
}

abbrev env : Env flat
env = record {
  py = record { search = λ a b. false; str_of = text_of };
  shell = record { split = λ posix t. none; is_windows = false };
  texts = texts;
  dumps = λ j. [];
  dumps_sorted = λ fields. [];
  dumps_key = λ fields. [];
  numbers = record {
    of_literal = λ t. err (value_error (codes "int() argument"));
    of_text = λ t. err (value_error (codes "int() argument"));
  };
  now = λ n. codes "now";
  tools = register_builtin file_read empty_router;
  layer = safety_layer flat [] (approval_manager "balanced") workspace manager workspace_write;
  model_info = record { capabilities = obj end; default_max_tokens = num 4096 };
  generate = λ n messages definitions. answer n;
  review_answer = λ n messages. err (value_error (codes "no reviewer"));
  stop_requested = λ n. false;
  approvals_reviewer = "user";
  guardian_prompt = [];
  deny_threshold = 80;
  output_limit = 1200;
  max_consecutive_errors = 5;
  max_step_rounds = 24;
  unified_turn_loop = true;
}

env-Routed : Routed env.tools
env-Routed = updated fresh (builtin file_read)

abbrev core : Core flat
core = record {
  safety = record { world = record { disk = []; entries = [] }; pending_changes = [] };
  generations = 0;
  executions = 0;
  checks = 0;
  answers = [];
}

handle_tool_calls-ahandle_tool_calls_example :
    quiet (handle_tool_calls env none (calling "file_read" ∷ calling "nothing" ∷ [])) core
    ≡ quiet (ahandle_tool_calls env none (calling "file_read" ∷ calling "nothing" ∷ [])) core
handle_tool_calls-ahandle_tool_calls_example =
    handle_tool_calls-ahandle_tool_calls env none (calling "file_read" ∷ calling "nothing" ∷ [])
      core env-Routed

sequential_call-IsAllowed_example :
    ((sequential_call env none (calling "file_read") core).0.1.safety ≡ core.safety)
    ⊎ IsAllowed env none (calling "file_read") core
sequential_call-IsAllowed_example = sequential_call-IsAllowed env none (calling "file_read") core

run_step-arun_step_example :
    quiet
      (run_step env (codes "task") (bootstrap_plan (codes "task")) (new_step (codes "task")) [])
      core
    ≡ quiet
        (arun_step env (codes "task") (bootstrap_plan (codes "task")) (new_step (codes "task")) [])
        core
run_step-arun_step_example =
    run_step-arun_step env (codes "task") (bootstrap_plan (codes "task")) (new_step (codes "task"))
      [] core env-Routed

env-AsksAtMost : AsksAtMost env 1
unfolding answer
env-AsksAtMost zero messages definitions = omega arith
env-AsksAtMost (suc n) messages definitions = omega arith

run_step-generations_example :
    (run_step env
      (codes "task")
      (bootstrap_plan (codes "task"))
      (new_step (codes "task"))
      []
      core).0.1.generations
    ≤ 0 + 24 * (1 + 1)
run_step-generations_example =
    run_step-generations env (codes "task") (bootstrap_plan (codes "task"))
      (new_step (codes "task")) [] core 1 env-AsksAtMost

-- The value of a call that returns.
abbrev ok_or : {A : Type 0} → A → Result A → A
ok_or default (ok a) = a
ok_or default (err raised) = default

abbrev handled : Handled
handled = ok_or nothing_handled (handle_tool_calls env none (calling "nothing" ∷ []) core).0.0

handle_tool_calls-AreAnswers_example :
    (map answers_to handled.messages
      ≡ map (λ t. some (str t)) (call_ids env (calling "nothing" ∷ [])))
    × (handled.had_error ≡ true → has_failure handled.failure ≡ true)
unfolding handle_tool_calls handle_tool_calls_sequential normalize_tool_call get string_eq tool_of
    list_eq codes get_tool_text key_of register_builtin register insert nat_eq unknown_tool
    error_result
handle_tool_calls-AreAnswers_example =
    handle_tool_calls-AreAnswers env none (calling "nothing" ∷ []) core handled refl

abbrev no_end : StepDone
no_end = record {
  summary = none;
  new_messages = [];
  errors = 0;
  failure_kind = "";
  last_model_error = [];
  failure_context = none;
}

-- A model that knows no tool, after its first answer.
abbrev bare : Env flat
bare = record env { tools = empty_router }

abbrev later : Core flat
later = record core { generations = 1 }

abbrev ended : StepDone
ended = ok_or no_end (run_step bare [] (bootstrap_plan []) (new_step []) [] later).0.0

-- The planner is not asked, and no time passes.
abbrev task : Task
task = record {
  task = codes "task";
  revise_plan = λ n plan reason. plan;
  clock = λ n. 0;
  inactivity_timeout = 600;
}

abbrev some_or : TaskPlan → Option TaskPlan → TaskPlan
some_or default none = default
some_or default (some plan) = plan

abbrev final : TaskPlan
final = some_or (bootstrap_plan []) (ok_or none (run bare task 2 [] none later).0.0)

run-completed_example : all is_completed final.steps ≡ true
unfolding run get_tool_definitions adapt_tool_definitions coerce_positive_int get definitions_loop
    list_tools list_registered string_eq list_eq nat_eq codes strip lstrip next_step find
    update_step get_step update_first bootstrap_plan answer
run-completed_example = run-completed bare task 2 [] none later final tt refl refl

run-finishes_example :
    ((run env task 2 [] none core).0.0 ≢ ok none)
    ⊎ (any is_replanning (run env task 2 [] none core).1 ≡ true)
unfolding pending_count bootstrap_plan string_eq
run-finishes_example = run-finishes env task 2 [] none core tt (omega arith)

abbrev told : List ModelMessage
told =
    plain_message "system" (codes "s")
    ∷ plain_message "user" (codes "u")
    ∷ plain_message "user" (codes "v")
    ∷ []

recent_context_with_system-keeps_system_example :
    (length (recent_context_with_system told 1) ≤ 2)
    × (any is_system (recent_context_with_system told 1) ≡ any is_system told)
unfolding nat_eq
recent_context_with_system-keeps_system_example =
    recent_context_with_system-keeps_system told 1 refl
