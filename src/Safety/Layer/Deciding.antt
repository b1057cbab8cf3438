-- ===== src/Safety/Layer/Deciding.antt =====
-- `check_and_approve` of localagentcli/safety/layer.py decides wherever the homes that a call names
-- are known.
use local_agent_cli.Base.{
  Bool, Eq, List, String, [], all, all-append, arith, contains, if◌then◌else◌, inl, inr, list_eq,
  nat_eq, string_eq, true, ◌==◌, ◌∷◌, ◌≡◌, ◌≢◌,
}
use local_agent_cli.Base.Text.{Text}
use local_agent_cli.Base.Json.{Fields, get}
use local_agent_cli.Base.Result.{Error, Result-cases, err, ok}
use local_agent_cli.Platform.{Platform}
use local_agent_cli.Tools.Base.{Tool}
use local_agent_cli.Safety.Boundary.{Shell, WorkspaceBoundary}
use local_agent_cli.Safety.Layer.Risk.{
  Python, describe_paths, describe_risk, modification_targets, nonempty_text,
  normalize_display_path, path_argument_values, risk_sensitive_paths, single_path_tools, text_files,
}
use local_agent_cli.Safety.Layer.Check.{
  ApprovalResult, SafetyLayer, assess, check_and_approve, describe_rollback, rollback_summaries,
  validate_arguments,
}
use local_agent_cli.Safety.Layer.Decision.{is_inside, validate_arguments-err, validate_arguments-ok}

module _ (P : Platform) ⦃e : Eq P.FilePath⦄ where
  -- The home that the text names, if it names one, is known.
  abbrev pub names_home : Text → Bool
  names_home t = P.has_home (P.from_str t)

module _ (P : Platform) ⦃e : Eq P.FilePath⦄ (b : WorkspaceBoundary P) (disk : P.Disk) where
  describe_paths-ne-err :
      (py : Python) (l : List Text) (x : Error)
      → all (names_home P) l ≡ true
      → describe_paths P py b disk l ≢ err x
  unfolding describe_paths normalize_display_path
  describe_paths-ne-err py [] x h = λ q. cc
  describe_paths-ne-err py (p ∷ l) x h = ground (arith, describe_paths-ne-err py l x)

  describe_risk-ne-err :
      (py : Python) (tool_name : String) (args : Fields) (x : Error)
      → all (names_home P) (path_argument_values tool_name args) ≡ true
      → describe_risk P py b disk tool_name args ≢ err x
  unfolding describe_risk risk_sensitive_paths
  describe_risk-ne-err py tool_name args x h =
      ground (arith, describe_paths-ne-err py (risk_sensitive_paths tool_name args) x)

  rollback_summaries-ne-err :
      (l : List Text) (x : Error)
      → all (is_inside P b disk) l ≡ true
      → all (names_home P) l ≡ true
      → rollback_summaries P b disk l ≢ err x
  unfolding rollback_summaries normalize_display_path
  rollback_summaries-ne-err [] x h k = λ q. cc
  rollback_summaries-ne-err (p ∷ l) x h k = ground (arith, rollback_summaries-ne-err l x)

  -- What may be modified is among the path arguments.
  modification_targets-all :
      (test : Text → Bool) (tool_name : String) (args : Fields)
      → all test (path_argument_values tool_name args) ≡ true
      → all test (modification_targets tool_name args) ≡ true
  unfolding modification_targets path_argument_values
  modification_targets-all test tool_name args h = ground (
    arith,
    all-append test
        (if contains single_path_tools tool_name then nonempty_text (get "path" args) else [])
        (if tool_name == "git_commit" then text_files (get "files" args) else []),
  )

  describe_rollback-ne-err :
      (tool_name : String) (args : Fields) (x : Error)
      → all (is_inside P b disk) (path_argument_values tool_name args) ≡ true
      → all (names_home P) (path_argument_values tool_name args) ≡ true
      → describe_rollback P b disk tool_name args ≢ err x
  unfolding describe_rollback
  describe_rollback-ne-err tool_name args x h k = ground (
    arith,
    modification_targets-all (is_inside P b disk) tool_name args h,
    modification_targets-all (names_home P) tool_name args k,
    rollback_summaries-ne-err (modification_targets tool_name args) x,
  )

module _ (P : Platform) ⦃e : Eq P.FilePath⦄ (py : Python) (shell : Shell) (layer : SafetyLayer P)
    (disk : P.Disk) (tool : Tool) (args : Fields) where
  open layer use {boundary}

  check_and_approve-ne-err :
      (x : Error)
      → all (names_home P) (path_argument_values tool.name args) ≡ true
      → check_and_approve P py shell layer disk tool args ≢ err x
  unfolding check_and_approve assess
  check_and_approve-ne-err x k h =
      elim (Result-cases (validate_arguments P py shell boundary disk tool.name args)) [
        | inl (warnings, q) ↦ ground (
          arith,
          q,
          describe_risk-ne-err P boundary disk py tool.name args x k,
          describe_rollback-ne-err P boundary disk tool.name args x
              (validate_arguments-ok P boundary disk py shell tool.name args warnings q).0 k,
        )
        | inr (raised, q) ↦
            ground
              (arith, q, validate_arguments-err P boundary disk py shell tool.name args raised q)
      ]

  pub check_and_approve-decides :
      all (names_home P) (path_argument_values tool.name args) ≡ true
      → (r : ApprovalResult) × (check_and_approve P py shell layer disk tool args ≡ ok r)
  check_and_approve-decides known =
      elim (Result-cases (check_and_approve P py shell layer disk tool args)) [
        | inl (r, q) ↦ (r, q)
        | inr (x, q) ↦ absurd (check_and_approve-ne-err x known q)
      ]
