-- ===== src/Safety/Layer/Decision.antt =====
-- What `check_and_approve` of localagentcli/safety/layer.py decides.
use local_agent_cli.Base.{
  Bool, Eq, List, String, [], all, arith, false, if◌then◌else◌, inl, inr, list_eq, nat_eq, none,
  not, refl, string_eq, true, ◌==◌, ◌||◌, ◌↔◌, ◌∷◌, ◌≡◌, ◌≢◌,
}
use local_agent_cli.Base.Json.{Fields}
use local_agent_cli.Platform.{Platform}
use local_agent_cli.Tools.Base.{Tool}
use local_agent_cli.Safety.Posture.{side_effect_block_reason}
use local_agent_cli.Safety.Approval.{RiskLevel}
use local_agent_cli.Safety.Approval.Laws.{MayRun, needs_approval-MayRun}
use local_agent_cli.Safety.Boundary.{
  PathArgument, Shell, WorkspaceBoundary, candidate_of, existing_components, text, validate_path,
  validate_symlink, validate_symlinks,
}
use local_agent_cli.Safety.Layer.Risk.{Python, classify_risk, path_argument_values, text_argument}
use local_agent_cli.Safety.Layer.Check.{
  ApprovalResult, SafetyLayer, approved, assess, check_and_approve, validate_all,
  validate_arguments, validate_command,
}
use local_agent_cli.Base.Text.{Text}
use local_agent_cli.Base.Result.{Error, Result-cases, boundary_error, err, ok}

module _ (P : Platform) ⦃e : Eq P.FilePath⦄ where
  -- `validate_path` accepts the text.
  abbrev pub is_inside : WorkspaceBoundary P → P.Disk → Text → Bool
  is_inside b disk given = elim (validate_path P b disk (text given)) [
    | ok _ ↦ true
    | err _ ↦ false
  ]

  -- Everything that an approval rests on.
  pub record IsAdmissible (py : Python) (layer : SafetyLayer P) (disk : P.Disk) (tool : Tool)
      (args : Fields) : Type 0 where
    pub unblocked : side_effect_block_reason layer.sandbox_posture tool ≡ none
    pub contained : all (is_inside layer.boundary disk) (path_argument_values tool.name args) ≡ true
    pub placed :
        (not (tool.name == "shell_execute")
          || is_inside layer.boundary disk (text_argument py "working_dir" "." args))
        ≡ true
    pub risk : RiskLevel
    pub classified : classify_risk P py layer.boundary disk tool.name args ≡ ok risk
    pub may_run : MayRun layer.approval tool risk layer.sandbox_policy.posture

module _ (P : Platform) ⦃e : Eq P.FilePath⦄ (b : WorkspaceBoundary P) (disk : P.Disk) where
  abbrev is_boundary_error : Error → Bool
  is_boundary_error (boundary_error t) = true
  is_boundary_error _ = false

  validate_symlinks-err :
      (l : List P.FilePath) (x : Error)
      → validate_symlinks P b disk l ≡ err x
      → is_boundary_error x ≡ true
  unfolding validate_symlinks validate_symlink
  validate_symlinks-err [] x h = cc
  validate_symlinks-err (p ∷ l) x h = ground (arith, validate_symlinks-err l x)

  validate_path-err :
      (given : PathArgument P) (x : Error)
      → validate_path P b disk given ≡ err x
      → is_boundary_error x ≡ true
  unfolding validate_path
  validate_path-err given x h =
      ground
        (arith, validate_symlinks-err (existing_components P b disk (candidate_of P b given)) x)

  validate_all-err :
      (l : List Text) (x : Error) → validate_all P b disk l ≡ err x → is_boundary_error x ≡ true
  validate_all-err [] x h = cc
  validate_all-err (p ∷ l) x h = ground (arith, validate_all-err l x, validate_path-err (text p) x)

  validate_all-is_inside :
      (l : List Text)
      → validate_all P b disk l
        ≡ (if all (is_inside P b disk) l then ok tt else validate_all P b disk l)
  validate_all-is_inside [] = refl
  validate_all-is_inside (p ∷ l) = ground (arith, validate_all-is_inside l)

  all-validate_all :
      (l : List Text) → validate_all P b disk l ≡ ok tt → all (is_inside P b disk) l ≡ true
  all-validate_all [] h = refl
  all-validate_all (p ∷ l) h = ground (arith, all-validate_all l)

  pub validate_arguments-err :
      (py : Python) (shell : Shell) (tool_name : String) (args : Fields) (x : Error)
      → validate_arguments P py shell b disk tool_name args ≡ err x
      → is_boundary_error x ≡ true
  unfolding validate_arguments validate_command
  validate_arguments-err py shell tool_name args x h = ground (
    arith,
    validate_all-err (path_argument_values tool_name args) x,
    validate_path-err (text (text_argument py "working_dir" "." args)) x,
  )

  pub validate_arguments-ok :
      (py : Python) (shell : Shell) (tool_name : String) (args : Fields) (warnings : List Text)
      → validate_arguments P py shell b disk tool_name args ≡ ok warnings
      → (all (is_inside P b disk) (path_argument_values tool_name args) ≡ true)
        × ((not (tool_name == "shell_execute")
              || is_inside P b disk (text_argument py "working_dir" "." args))
            ≡ true)
  unfolding validate_arguments validate_command
  validate_arguments-ok py shell tool_name args warnings h =
      (ground (arith, all-validate_all (path_argument_values tool_name args)), ground arith)

  validate_all_complete :
      (l : List Text) → all (is_inside P b disk) l ≡ true → validate_all P b disk l ≡ ok tt
  validate_all_complete [] h = refl
  validate_all_complete (p ∷ l) h = ground (arith, validate_all_complete l)

  validate_arguments_complete :
      (py : Python) (shell : Shell) (tool_name : String) (args : Fields) (x : Error)
      → all (is_inside P b disk) (path_argument_values tool_name args) ≡ true
      → (not (tool_name == "shell_execute")
          || is_inside P b disk (text_argument py "working_dir" "." args))
        ≡ true
      → validate_arguments P py shell b disk tool_name args ≢ err x
  unfolding validate_arguments validate_command
  validate_arguments_complete py shell tool_name args x h k =
      ground (arith, validate_all_complete (path_argument_values tool_name args) h, k)

module _ (P : Platform) ⦃e : Eq P.FilePath⦄ (py : Python) (shell : Shell) (layer : SafetyLayer P)
    (disk : P.Disk) (tool : Tool) (args : Fields) where
  open layer use {boundary}

  approved-IsAdmissible :
      (r : ApprovalResult)
      → check_and_approve P py shell layer disk tool args ≡ ok r
      → r.status ≡ approved
      → IsAdmissible P py layer disk tool args
  unfolding check_and_approve assess classify_risk
  approved-IsAdmissible r h s =
      elim (Result-cases (validate_arguments P py shell boundary disk tool.name args)) [
        | inl (warnings, q) ↦
            let valid = validate_arguments-ok P boundary disk py shell tool.name args warnings q in
            record {
              unblocked = ground (arith, q);
              contained = valid.0;
              placed = valid.1;
              risk = r.risk_level;
              classified = ground (arith, q);
              may_run =
                  (needs_approval-MayRun layer.approval tool r.risk_level
                      layer.sandbox_policy.posture).0
                    (ground (arith, q));
            }
        | inr (raised, q) ↦ absurd (
            ground
              (arith, q, validate_arguments-err P boundary disk py shell tool.name args raised q))
      ]

  IsAdmissible-approved :
      (r : ApprovalResult)
      → check_and_approve P py shell layer disk tool args ≡ ok r
      → IsAdmissible P py layer disk tool args
      → r.status ≡ approved
  unfolding check_and_approve assess classify_risk
  IsAdmissible-approved r h a =
      elim (Result-cases (validate_arguments P py shell boundary disk tool.name args)) [
        | inl (warnings, q) ↦ ground (
          arith,
          q,
          a.unblocked,
          a.classified,
          (needs_approval-MayRun layer.approval tool a.risk layer.sandbox_policy.posture).1
              a.may_run,
        )
        | inr (raised, q) ↦ absurd (
            validate_arguments_complete P boundary disk py shell tool.name args raised a.contained
              a.placed q)
      ]

  -- A call is approved without asking exactly if the posture does not block the tool, every path
  -- argument and the working directory of a shell command are accepted by `validate_path`, and the
  -- approval mode lets a call of this risk run in the layer's posture.
  pub check_and_approve-approved :
      (r : ApprovalResult)
      → check_and_approve P py shell layer disk tool args ≡ ok r
      → (r.status ≡ approved) ↔ IsAdmissible P py layer disk tool args
  check_and_approve-approved r h = (approved-IsAdmissible r h, IsAdmissible-approved r h)
