-- ===== src/Safety/Layer/Actions.antt =====
-- localagentcli/safety/layer.py: what happens before and after a call that may change files.
use local_agent_cli.Base.{
  Eq, List, Option, [], false, if◌then◌else◌, list_eq, nat_eq, none, some, string_eq, true, ◌++◌,
  ◌==◌, ◌∷◌,
}
use local_agent_cli.Base.Json.{Fields}
use local_agent_cli.Base.Dict.{erase, insert, lookup}
use local_agent_cli.Base.Exec.{Exec, pure, ◌>>=◌, ◌>>◌}
use local_agent_cli.Platform.{Platform}
use local_agent_cli.Tools.Base.{Tool, ToolResult}
use local_agent_cli.Safety.Boundary.{text, validate_path}
use local_agent_cli.Safety.Rollback.{World, backup_file, record_creation, record_modification}
use local_agent_cli.Safety.Layer.Risk.{modification_targets}
use local_agent_cli.Safety.Layer.Check.{PendingRollback, SafetyLayer, State}
use local_agent_cli.Base.Text.{Text, codes}
use local_agent_cli.Base.Result.{Result, err, ok}

module _ (P : Platform) ⦃e : Eq P.FilePath⦄ (layer : SafetyLayer P) where
  open layer use {boundary, rollback}

  -- A method of the rollback manager, on the layer's state.
  abbrev on_world {ℓ} : {A : Type ℓ} → (World P → Result A × World P) → State P → Result A × State P
  on_world method s = let (r, w) = method s.world in (r, record s { world = w })

  -- One target: the record of what was there, and its backup if there was something.
  unfoldable pub prepare : Text → State P → Result (PendingRollback P) × State P
  prepare file_path s = elim (validate_path P boundary s.world.disk (text file_path)) [
    | err e ↦ (err e, s)
    | ok resolved ↦
        if P.exists s.world.disk resolved
        then (let (r, s') = on_world (backup_file P rollback resolved) s in
            (
              elim r [
                | err e ↦ err e
                | ok backup ↦ ok (record {
                  file_path = resolved;
                  existed_before = true;
                  backup_path = some backup;
                })
              ],
              s',
            ))
        else (ok (record { file_path = resolved; existed_before = false; backup_path = none }), s)
  ]

  unfoldable pub prepare_all : List Text → Exec (State P) (List (PendingRollback P))
  prepare_all [] = pure []
  prepare_all (file_path ∷ rest) = do
    change ← prepare file_path
    more ← prepare_all rest
    pure (change ∷ more)

  -- `dumps` is `json.dumps` with sorted keys.
  abbrev pub action_key : (Fields → Text) → Tool → Fields → Text
  action_key dumps tool args = codes tool.name ++ (codes ":" ++ dumps args)

  -- Nothing is remembered for a call without targets.
  abbrev pub remember : Text → List (PendingRollback P) → State P → State P
  remember key [] s = s
  remember key (change ∷ more) s = record s {
    pending_changes = insert key (change ∷ more) s.pending_changes;
  }

  unfoldable pub pre_action : (Fields → Text) → Tool → Fields → Exec (State P) (Unit {0})
  pre_action dumps tool args = do
    pending ← prepare_all (modification_targets tool.name args)
    λ s. (ok tt, remember (action_key dumps tool args) pending s)

  abbrev pub pending_of : Option (List (PendingRollback P)) → List (PendingRollback P)
  pending_of none = []
  pending_of (some changes) = changes

  -- One change of a call that succeeded: `now` is the clock's text.
  unfoldable pub record_change : Text → Tool → Text → PendingRollback P → Exec (World P) (Unit {0})
  record_change now tool summary change w =
      elim (if change.existed_before then change.backup_path else none) [
        | some backup ↦
            (record_modification P rollback now change.file_path backup (codes tool.name) summary
                >>= λ _. pure tt)
              w
        | none ↦
            if P.exists w.disk change.file_path
            then (record_creation P rollback now change.file_path (codes tool.name) summary >>= λ _.
                  pure tt)
                w
            else (ok tt, w)
      ]

  unfoldable pub record_changes :
      Text → Tool → Text → List (PendingRollback P) → Exec (World P) (Unit {0})
  record_changes now tool summary [] = pure tt
  record_changes now tool summary (change ∷ rest) =
      record_change now tool summary change >> record_changes now tool summary rest

  -- The pending changes of the call are dropped, whether it succeeded or not.
  unfoldable pub post_action :
      (Fields → Text) → Text → Tool → Fields → ToolResult → Exec (State P) (Unit {0})
  post_action dumps now tool args result s =
      let key = action_key dumps tool args in
      let pending = pending_of (lookup key s.pending_changes) in
      let s' = record s { pending_changes = erase key s.pending_changes } in
      if result.status == "success"
      then on_world (record_changes now tool result.summary pending) s'
      else (ok tt, s')

  -- `_execute_tool_safely` of localagentcli/agents/loop.py: `run` is the tool, which may change the
  -- disk. If `pre_action` raises, the tool does not run.
  unfoldable pub execute_tool_safely :
      (Fields → Text)
      → Text
      → Tool
      → Fields
      → (P.Disk → ToolResult × P.Disk)
      → Exec (State P) ToolResult
  execute_tool_safely dumps now tool args run = do
    pre_action dumps tool args
    λ s.
        let (result, disk) = run s.world.disk in
        (post_action dumps now tool args result >>= λ _. pure result)
          (record s { world = record s.world { disk = disk } })
