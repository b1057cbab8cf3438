-- ===== src/Safety/Approval/Laws.antt =====
-- localagentcli/safety/approval.py: when a call may go ahead without asking.
use local_agent_cli.Base.{
  Bool-cases, arith, false, if◌then◌else◌, inl, inr, literals_differ, refl, string_eq, true, ◌==◌,
  ◌↔◌, ◌≡◌,
}
use local_agent_cli.Tools.Base.{Tool}
use local_agent_cli.Safety.Posture.{
  SandboxPosture, danger_full_access, is_posture, read_only, workspace_write,
}
use local_agent_cli.Safety.Approval.{ApprovalManager, RiskLevel, high, needs_approval, normal}

-- The two ways in which a call needs no approval.
pub data MayRun (m : ApprovalManager) (tool : Tool) : RiskLevel → SandboxPosture → Type 0 where
  unsandboxed :
      tool.name ≡ "shell_execute" → m.mode ≡ "autonomous" → MayRun m tool high danger_full_access
  harmless : {p : SandboxPosture} → tool.is_read_only ≡ true → MayRun m tool normal p
  exempt : {p : SandboxPosture} → tool.requires_approval ≡ false → MayRun m tool normal p
  trusted : {p : SandboxPosture} → m.mode ≡ "autonomous" → MayRun m tool normal p

module _ (m : ApprovalManager) (tool : Tool) where
  needs_approval_high :
      (p : SandboxPosture)
      → needs_approval m tool high p ≡ (
          if tool.name == "shell_execute"
          then (if m.mode == "autonomous"
              then (if is_posture p danger_full_access then false else true)
              else true)
          else true)
  unfolding needs_approval
  needs_approval_high p = ground arith

  needs_approval_normal :
      (p : SandboxPosture)
      → needs_approval m tool normal p ≡ (
          if tool.is_read_only
          then false
          else if tool.requires_approval
          then (if m.mode == "autonomous" then false else true)
          else false)
  unfolding needs_approval
  needs_approval_normal p = ground (arith, literals_differ "normal" "high" refl)

  MayRun-complete :
      (r : RiskLevel) (p : SandboxPosture) → MayRun m tool r p → needs_approval m tool r p ≡ false
  unfolding is_posture
  MayRun-complete r p (unsandboxed a b) = ground (arith, needs_approval_high danger_full_access)
  MayRun-complete r p (harmless a) = ground (arith, needs_approval_normal p)
  MayRun-complete r p (exempt a) = ground (arith, needs_approval_normal p)
  MayRun-complete r p (trusted a) = ground (arith, needs_approval_normal p)

  MayRun-sound :
      (r : RiskLevel) (p : SandboxPosture) → needs_approval m tool r p ≡ false → MayRun m tool r p
  unfolding is_posture
  MayRun-sound high workspace_write h = absurd (ground (arith, needs_approval_high workspace_write))
  MayRun-sound high read_only h = absurd (ground (arith, needs_approval_high read_only))
  MayRun-sound high danger_full_access h =
      unsandboxed (ground (arith, needs_approval_high danger_full_access))
        (ground (arith, needs_approval_high danger_full_access))
  MayRun-sound normal p h = elim (Bool-cases tool.is_read_only) [
    | inl a ↦ harmless a
    | inr a ↦ elim (Bool-cases tool.requires_approval) [
      | inl b ↦ trusted (ground (arith, needs_approval_normal p))
      | inr b ↦ exempt b
    ]
  ]

-- A call needs no approval exactly when it is a high-risk shell command in the unsandboxed posture
-- under autonomous approvals, or a normal-risk call that is read-only, is exempt, or runs under
-- autonomous approvals.
pub needs_approval-MayRun :
    (m : ApprovalManager) (tool : Tool) (r : RiskLevel) (p : SandboxPosture)
    → (needs_approval m tool r p ≡ false) ↔ MayRun m tool r p
needs_approval-MayRun m tool r p = (MayRun-sound m tool r p, MayRun-complete m tool r p)
