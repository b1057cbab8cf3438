-- ===== src/Safety/Layer/LocalCall.antt =====
-- One call that changes one file: what `pre_action` and `post_action` do around it.
use local_agent_cli.Base.{
  Eq, [], arith, false, length, list_eq, nat_eq, none, some, string_eq, true, ℕ, ◌==◌, ◌∷◌, ◌≡◌,
}
use local_agent_cli.Base.Json.{Fields}
use local_agent_cli.Base.Dict.{lookup, lookup-insert}
use local_agent_cli.Base.Exec.{continue-pure}
use local_agent_cli.Platform.{HasFiles, Platform}
use local_agent_cli.Tools.Base.{Tool, ToolResult}
use local_agent_cli.Safety.Boundary.{text, validate_path}
use local_agent_cli.Safety.Rollback.{World, backup_file, copy_file, make_directory}
use local_agent_cli.Safety.Rollback.Views.{backup_at, is_stored}
use local_agent_cli.Safety.Layer.Risk.{modification_targets}
use local_agent_cli.Safety.Layer.Check.{PendingRollback, SafetyLayer, State}
use local_agent_cli.Safety.Layer.Actions.{
  action_key, post_action, pre_action, prepare, prepare_all, record_change, record_changes,
  remember,
}
use local_agent_cli.Base.Text.{Text}
use local_agent_cli.Base.Result.{Error, err, file_not_found, ok}

-- A call that the loop executes: the tool may read and change the disk.
pub record Call (P : Platform) : Type 0 where
  pub now : Text
  pub tool : Tool
  pub args : Fields
  pub run : P.Disk → ToolResult × P.Disk

module _ (P : Platform) ⦃e : Eq P.FilePath⦄ (layer : SafetyLayer P) where
  -- The disk with a backup of so many entries, in its directory.
  abbrev pub backed_disk : ℕ → P.FilePath → Text → P.Disk → P.Disk
  backed_disk count p old d =
      let backup = backup_at P layer.rollback count p in
      P.write (P.mkdir d (P.parent backup)) backup old

  -- A disk as it is, and as it is after a backup was made on it.
  pub data IsBackedUp (d : P.Disk) : P.Disk → Type 0 where
    unchanged : IsBackedUp d d
    backed_up : (count : ℕ) (p : P.FilePath) (old : Text) → IsBackedUp d (backed_disk count p old d)

  -- The call has one target outside the backups. Run where that was validated, or after a backup was
  -- made there, it changes nothing else; and it changes nothing when it fails.
  pub record IsLocal (c : Call P) : Type 0 where
    pub target : Text
    pub single : modification_targets c.tool.name c.args ≡ target ∷ []
    pub outside :
        (d : P.Disk) (p : P.FilePath)
        → validate_path P layer.boundary d (text target) ≡ ok p
        → is_stored P layer.rollback p ≡ false
    pub only :
        {d d' : P.Disk} (p q : P.FilePath)
        → IsBackedUp d d'
        → validate_path P layer.boundary d (text target) ≡ ok p
        → (q == p) ≡ false
        → P.read (c.run d').1 q ≡ P.read d' q
    pub harmless_failure :
        (d : P.Disk) (q : P.FilePath)
        → ((c.run d).0.status == "success") ≡ false
        → P.read (c.run d).1 q ≡ P.read d q

module _ (P : Platform) ⦃e : Eq P.FilePath⦄ (files : HasFiles P) (layer : SafetyLayer P)
    (dumps : Fields → Text) (c : Call P) where
  open layer use {boundary, rollback}
  open c use {now, tool, args, run}

  abbrev pub key : Text
  key = action_key P layer dumps tool args

  abbrev pub fresh_change : P.FilePath → PendingRollback P
  fresh_change p = record { file_path = p; existed_before = false; backup_path = none }

  abbrev pub kept_change : P.FilePath → P.FilePath → PendingRollback P
  kept_change p backup = record { file_path = p; existed_before = true; backup_path = some backup }

  module _ (s : State P) (target : Text) (p : P.FilePath)
      (single : modification_targets tool.name args ≡ target ∷ [])
      (valid : validate_path P boundary s.world.disk (text target) ≡ ok p) where
    pub prepare-fresh :
        P.exists s.world.disk p ≡ false → prepare P layer target s ≡ (ok (fresh_change p), s)
    unfolding prepare
    prepare-fresh gone = ground arith

    pub prepare-kept :
        (old : Text)
        → P.exists s.world.disk p ≡ true
        → P.read s.world.disk p ≡ some old
        → let backup = backup_at P rollback (length s.world.entries) p in
          prepare P layer target s ≡ (
            ok (kept_change p backup),
            record s {
              world = record s.world {
                disk = P.write (P.mkdir s.world.disk (P.parent backup)) backup old;
              };
            },
          )
    unfolding prepare backup_file copy_file make_directory
    prepare-kept old there h = ground (
      arith,
      files.read-mkdir s.world.disk (P.parent (backup_at P rollback (length s.world.entries) p)) p,
    )

    -- Making the backup raises: its directory is there, and no more.
    pub prepare_failed :
        P.exists s.world.disk p ≡ true
        → P.read s.world.disk p ≡ none
        → let backup = backup_at P rollback (length s.world.entries) p in
          (x : Error) × (prepare P layer target s ≡ (
            err x,
            record s { world = record s.world { disk = P.mkdir s.world.disk (P.parent backup) } },
          ))
    unfolding prepare backup_file copy_file make_directory
    prepare_failed there h = (
      file_not_found (P.to_str p),
      ground (
        arith,
        files.read-mkdir s.world.disk (P.parent (backup_at P rollback (length s.world.entries) p))
            p,
      ),
    )

    pub pre_action-of :
        (change : PendingRollback P) (s' : State P)
        → prepare P layer target s ≡ (ok change, s')
        → pre_action P layer dumps tool args s ≡ (ok tt, remember P layer key (change ∷ []) s')
    unfolding pre_action prepare_all
    pre_action-of change s' h = rw (single, h)

  -- What `post_action` does to the world, after `pre_action` remembered one change.
  module _ (change : PendingRollback P) (s : State P) (w : World P) (result : ToolResult) where
    abbrev pub after_run : State P
    after_run = record (remember P layer key (change ∷ []) s) { world = w }

    lookup-after_run : lookup key after_run.pending_changes ≡ some (change ∷ [])
    lookup-after_run = ground (arith, lookup-insert key key (change ∷ []) s.pending_changes)

    pub post_action-success :
        (result.status == "success") ≡ true
        → (post_action P layer dumps now tool args result after_run).1.world
          ≡ (record_change P layer now tool result.summary change w).1
    unfolding post_action record_changes
    post_action-success h =
        rw (lookup-after_run, h)
          (continue-pure (record_change P layer now tool result.summary change w).0 tt
            (record_change P layer now tool result.summary change w).1)

    pub post_action-failure :
        (result.status == "success") ≡ false
        → (post_action P layer dumps now tool args result after_run).1.world ≡ w
    unfolding post_action
    post_action-failure h = rw h
