-- ===== src/Tests/Boundaries.antt =====
-- Runs of the boundary, the policy, the approvals and the layer's decision on small inputs.
use local_agent_cli.Base.{
  List, Option, String, [], any, false, list_eq, nat_eq, none, refl, some, string_eq, true, ◌↔◌,
  ◌∷◌, ◌≡◌,
}
use local_agent_cli.Base.Dict.{Dict, lookup}
use local_agent_cli.Base.Text.{Text, codes, join, split, starts_with}
use local_agent_cli.Base.Json.{Fields, end, field, get, null, str}
use local_agent_cli.Tools.Base.{Tool}
use local_agent_cli.Safety.Posture.{
  danger_full_access, read_only, side_effect_block_reason, workspace_write,
}
use local_agent_cli.Safety.Approval.{ApprovalManager, approval_manager, needs_approval, normal}
use local_agent_cli.Safety.Approval.Laws.{MayRun, needs_approval-MayRun}
use local_agent_cli.Safety.Policy.{can_write_path, from_posture, is_under}
use local_agent_cli.Safety.Policy.Laws.{can_write_path-from_posture, resolved_roots}
use local_agent_cli.Safety.Rollback.{Codec, RollbackManager}
use local_agent_cli.Safety.Boundary.{Shell, WorkspaceBoundary, candidate_of, text, validate_path}
use local_agent_cli.Safety.Boundary.Laws.{IsInside, validate_path-IsInside}
use local_agent_cli.Safety.Layer.{
  ApprovalResult, Python, SafetyLayer, Status, approved, assess, blocked, check_and_approve,
  describe_paths, describe_risk, describe_rollback, first_match, high_risk_commands,
  high_risk_file_patterns, modification_targets, normalize_display_path, path_argument_values,
  risk_sensitive_paths, safety_layer, single_path_tools, validate_arguments,
}
use local_agent_cli.Safety.Layer.Decision.{IsAdmissible, check_and_approve-approved}
use local_agent_cli.Tests.Platforms.{
  ancestors, is_some, linked, linked-HasParents, unlinked, unlinked-Resolves,
}
use local_agent_cli.Base.Result.{Result, err, ok, runtime_error}
use local_agent_cli.Safety.Layer.Deciding.{check_and_approve-decides}

abbrev workspace : WorkspaceBoundary linked
workspace = record { root = (b'w' ∷ []) ∷ [] ∷ [] }

abbrev inside : List Text
inside = (b'f' ∷ []) ∷ (b'w' ∷ []) ∷ [] ∷ []

-- A link out of the workspace, and one within it.
abbrev links : Dict (List Text) (List Text)
links =
    ((b'o' ∷ []) ∷ (b'w' ∷ []) ∷ [] ∷ [], (b'x' ∷ []) ∷ [] ∷ [])
    ∷ ((b'i' ∷ []) ∷ (b'w' ∷ []) ∷ [] ∷ [], inside)
    ∷ []

unfoldable pub accepts : Result (List Text) → Option (List Text)
accepts (ok p) = some p
accepts (err e) = none

outside_by_link : accepts (validate_path linked workspace links (text (codes "o"))) ≡ none
unfolding accepts validate_path codes list_eq lookup starts_with join split nat_eq ancestors is_some
outside_by_link = refl

inside_by_link : accepts (validate_path linked workspace links (text (codes "i"))) ≡ some inside
unfolding accepts validate_path codes list_eq lookup starts_with join split nat_eq ancestors is_some
inside_by_link = refl

validate_path-IsInside_example :
    (validate_path linked workspace links (text (codes "i")) ≡ ok inside) ↔ (
      (inside
        ≡ linked.resolve links
            (linked.expanduser (candidate_of linked workspace (text (codes "i")))))
      × IsInside linked workspace links
          (linked.expanduser (candidate_of linked workspace (text (codes "i")))))
validate_path-IsInside_example =
    validate_path-IsInside linked workspace links linked-HasParents (text (codes "i")) inside

can_write_path-from_posture_example :
    (can_write_path unlinked []
        (from_posture unlinked [] read_only workspace.root (some []) none)
        inside
      ≡ false)
    × (can_write_path unlinked []
          (from_posture unlinked [] danger_full_access workspace.root (some []) none)
          inside
        ≡ true)
    × (can_write_path unlinked []
          (from_posture unlinked [] workspace_write workspace.root (some []) none)
          inside
        ≡ any (is_under unlinked inside) (resolved_roots unlinked [] (workspace.root ∷ [])))
can_write_path-from_posture_example =
    can_write_path-from_posture unlinked unlinked-Resolves [] workspace.root inside [] none

abbrev cautious : ApprovalManager
cautious = approval_manager "balanced"

abbrev shell_execute : Tool
shell_execute = record {
  name = "shell_execute";
  description = [];
  parameters_schema = null;
  requires_approval = true;
  is_read_only = false;
  required_model_capabilities = [];
  minimum_model_default_max_tokens = 0;
}

abbrev file_read : Tool
file_read = record shell_execute {
  name = "file_read";
  requires_approval = false;
  is_read_only = true;
}

needs_approval-MayRun_example :
    (needs_approval cautious shell_execute normal workspace_write ≡ false)
    ↔ MayRun cautious shell_execute normal workspace_write
needs_approval-MayRun_example = needs_approval-MayRun cautious shell_execute normal workspace_write

-- A search that matches nothing, and a shell that splits at spaces.
abbrev py : Python
py = record { search = λ pattern subject. false; str_of = λ j. [] }

abbrev sh : Shell
sh = record { split = λ posix command. some (split b' ' command); is_windows = false }

-- A codec for managers whose log is not read.
abbrev nothing_coded : Codec
nothing_coded = record {
  dumps = λ j. [];
  loads = λ t. ok null;
  int_of = λ j. ok 0;
  str_of = λ j. [];
}

abbrev manager : RollbackManager linked
manager = record { session_id = codes "s"; storage = (b'b' ∷ []) ∷ [] ∷ []; codec = nothing_coded }

abbrev layer : SafetyLayer linked
layer = safety_layer linked links cautious workspace manager workspace_write

abbrev read_args : String → Fields
read_args p = field "path" (str (codes p)) end

unfoldable pub status_of : Result ApprovalResult → Option Status
status_of (ok r) = some r.status
status_of (err e) = none

reading_inside :
    status_of (check_and_approve linked py sh layer links file_read (read_args "i")) ≡ some approved
unfolding status_of check_and_approve list_eq nat_eq string_eq side_effect_block_reason safety_layer
    validate_arguments path_argument_values get codes validate_path lookup starts_with join split
    ancestors is_some assess describe_rollback modification_targets needs_approval describe_paths
    describe_risk first_match high_risk_commands high_risk_file_patterns normalize_display_path
    risk_sensitive_paths single_path_tools from_posture
reading_inside = refl

reading_outside :
    status_of (check_and_approve linked py sh layer links file_read (read_args "o")) ≡ some blocked
unfolding status_of check_and_approve list_eq nat_eq string_eq side_effect_block_reason safety_layer
    validate_arguments path_argument_values get codes validate_path lookup starts_with join split
    ancestors
reading_outside = refl

-- An unknown home raises: nothing catches it.
unknown_home :
    check_and_approve linked py sh layer links file_read (read_args "~u")
    ≡ err (runtime_error (codes "Could not determine home directory."))
unfolding check_and_approve assess describe_rollback modification_targets needs_approval list_eq
    nat_eq string_eq side_effect_block_reason safety_layer validate_arguments path_argument_values
    get codes validate_path lookup starts_with join split ancestors is_some describe_paths
    describe_risk first_match high_risk_commands high_risk_file_patterns normalize_display_path
    risk_sensitive_paths single_path_tools from_posture
unknown_home = refl

abbrev decided :
    (r : ApprovalResult) × (check_and_approve linked py sh layer links file_read (read_args "i")
      ≡ ok r)
unfolding list_eq nat_eq string_eq path_argument_values get codes starts_with join split
    single_path_tools
decided = check_and_approve-decides linked py sh layer links file_read (read_args "i") refl

check_and_approve-approved_example :
    (decided.0.status ≡ approved) ↔ IsAdmissible linked py layer links file_read (read_args "i")
check_and_approve-approved_example =
    check_and_approve-approved linked py sh layer links file_read (read_args "i") decided.0
      decided.1
