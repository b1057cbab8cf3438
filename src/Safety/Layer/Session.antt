-- ===== src/Safety/Layer/Session.antt =====
-- A session of file-changing calls can be undone: `pre_action`, the tool, `post_action`, `undo_all`.
use mathlib.Core.Path.{fun_ext}
use local_agent_cli.Base.{
  All, Bool-cases, Eq, List, Option-cases, [], ap, arith, false, inl, inr, length, list_eq, nat_eq,
  refl, some, string_eq, subst, sym, true, ℕ, ◌==◌, ◌∙◌, ◌∷◌, ◌≡◌,
}
use local_agent_cli.Base.Json.{Fields}
use local_agent_cli.Base.Exec.{continue-pure}
use local_agent_cli.Platform.{HasFiles, HasNames, Platform}
use local_agent_cli.Safety.Boundary.{text, validate_path}
use local_agent_cli.Safety.Rollback.{
  RollbackEntry, World, record_creation, record_modification, undo_all,
}
use local_agent_cli.Safety.Rollback.Views.{Undoable, View, backup_at, outside_storage}
use local_agent_cli.Safety.Rollback.Undo.{undo_all-outside_storage}
use local_agent_cli.Safety.Rollback.Rounds.{
  IsUndoable, record_creation-IsUndoable, record_modification-IsUndoable, unused_backup-IsUndoable,
}
use local_agent_cli.Safety.Layer.Check.{PendingRollback, SafetyLayer, State}
use local_agent_cli.Safety.Layer.Actions.{
  action_key, execute_tool_safely, post_action, pre_action, prepare, prepare_all, record_change,
  remember,
}
use local_agent_cli.Base.Text.{Text, codes}
use local_agent_cli.Base.Result.{Error, Result-cases, err, ok}
use local_agent_cli.Safety.Layer.LocalCall.{
  Call, IsLocal, after_run, backed_disk, backed_up, fresh_change, kept_change, post_action-failure,
  post_action-success, pre_action-of, prepare-fresh, prepare-kept, prepare_failed, unchanged,
}

module _ (P : Platform) ⦃e : Eq P.FilePath⦄ (layer : SafetyLayer P) (dumps : Fields → Text) where
  -- The calls of a session, one after another; a call that raises leaves its state to the next.
  unfoldable pub run_calls : List (Call P) → State P → State P
  run_calls [] s = s
  run_calls (c ∷ calls) s =
      run_calls calls (execute_tool_safely P layer dumps c.now c.tool c.args c.run s).1

module _ (P : Platform) ⦃e : Eq P.FilePath⦄ (files : HasFiles P) (names : HasNames P)
    (layer : SafetyLayer P) (dumps : Fields → Text) (original : View P) where
  open layer use {boundary, rollback}

  abbrev Undo : State P → Type 0
  Undo s = IsUndoable P rollback files names original s.world

  -- The two ways in which a call that prepared its target ends.
  finish_call :
      (c : Call P) (s' s : State P) (change : PendingRollback P)
      → pre_action P layer dumps c.tool c.args s
        ≡ (ok tt, remember P layer (action_key P layer dumps c.tool c.args) (change ∷ []) s')
      → let result = (c.run s'.world.disk).0 in
        let w = record s'.world { disk = (c.run s'.world.disk).1 } in
        ((result.status == "success") ≡ true
          → IsUndoable P rollback files names original
              (record_change P layer c.now c.tool result.summary change w).1)
        → ((result.status == "success") ≡ false → IsUndoable P rollback files names original w)
        → Undo (execute_tool_safely P layer dumps c.now c.tool c.args c.run s).1
  unfolding execute_tool_safely
  finish_call c s' s change pre good bad =
      let result = (c.run s'.world.disk).0 in
      let w : World P = record s'.world { disk = (c.run s'.world.disk).1 } in
      let post =
        post_action P layer dumps c.now c.tool c.args result
          (after_run P files layer dumps c change s' w result) in
      let whole = ap (λ (t : State P). t.world) (continue-pure post.0 result post.1) in
      rw pre (elim (Bool-cases (result.status == "success")) [
        | inl h ↦
            subst (IsUndoable P rollback files names original)
              (sym (whole ∙ post_action-success P files layer dumps c change s' w result h))
              (good h)
        | inr h ↦
            subst (IsUndoable P rollback files names original)
              (sym (whole ∙ post_action-failure P files layer dumps c change s' w result h)) (bad h)
      ])

  IsUndoable-same_reads :
      (w : World P) (disk' : P.Disk)
      → ((q : P.FilePath) → P.read disk' q ≡ P.read w.disk q)
      → IsUndoable P rollback files names original w
      → IsUndoable P rollback files names original (record w { disk = disk' })
  IsUndoable-same_reads w disk' same (es, h, u) =
      (es, h, subst (λ v. Undoable P rollback es v original) (sym (fun_ext same)) u)

  read-backed_disk :
      (d : P.Disk) (p q : P.FilePath) (count : ℕ) (old : Text)
      → P.read (backed_disk P layer count p old d) q
        ≡ P.read (P.write d (backup_at P rollback count p) old) q
  read-backed_disk d p q count old =
      let backup = backup_at P rollback count p in
      ground (
        arith,
        files.read-write (P.mkdir d (P.parent backup)) backup q old,
        files.read-write d backup q old,
        files.read-mkdir d (P.parent backup) q,
      )

  -- A call whose target did not exist.
  fresh_call :
      (c : Call P) (local : IsLocal P layer c) (s : State P) (p : P.FilePath)
      → validate_path P boundary s.world.disk (text local.target) ≡ ok p
      → P.exists s.world.disk p ≡ false
      → Undo s
      → Undo (execute_tool_safely P layer dumps c.now c.tool c.args c.run s).1
  unfolding record_change
  fresh_call c local s p valid gone u =
      let disk' = (c.run s.world.disk).1 in
      let missing = files.read_missing s.world.disk p gone in
      let only = λ (q : P.FilePath). local.only p q unchanged valid in
      finish_call c s s (fresh_change P files layer dumps c p)
        (pre_action-of P files layer dumps c s local.target p local.single valid
          (fresh_change P files layer dumps c p) s
          (prepare-fresh P files layer dumps c s local.target p local.single valid gone))
        (λ h. elim (Bool-cases (P.exists disk' p)) [
          | inl made ↦
              let made_entry =
                record_creation P rollback c.now p (codes c.tool.name)
                  (c.run s.world.disk).0.summary (record s.world { disk = disk' }) in
              rw made (
                subst (IsUndoable P rollback files names original)
                  (sym (continue-pure made_entry.0 tt made_entry.1))
                  (record_creation-IsUndoable P rollback files names s.world original p disk' c.now
                    (codes c.tool.name) (c.run s.world.disk).0.summary
                    (local.outside s.world.disk p valid) u missing only))
          | inr absent ↦ rw absent (
              IsUndoable-same_reads s.world disk'
                (λ q. ground (arith, only q, missing, files.read_missing disk' p absent)) u)
        ])
        (λ h. IsUndoable-same_reads s.world disk' (λ q. local.harmless_failure s.world.disk q h) u)

  -- A call whose target existed and was backed up.
  kept_call :
      (c : Call P) (local : IsLocal P layer c) (s : State P) (p : P.FilePath) (old : Text)
      → validate_path P boundary s.world.disk (text local.target) ≡ ok p
      → P.exists s.world.disk p ≡ true
      → P.read s.world.disk p ≡ some old
      → Undo s
      → Undo (execute_tool_safely P layer dumps c.now c.tool c.args c.run s).1
  unfolding record_change
  kept_call c local s p old valid there content u =
      let backup = backup_at P rollback (length s.world.entries) p in
      let disk = backed_disk P layer (length s.world.entries) p old s.world.disk in
      let disk' = (c.run disk).1 in
      let s' : State P = record s { world = record s.world { disk = disk } } in
      let change = kept_change P files layer dumps c p backup in
      let kept =
        record_modification P rollback c.now p backup (codes c.tool.name) (c.run disk).0.summary
          (record s.world { disk = disk' }) in
      finish_call c s' s change
        (pre_action-of P files layer dumps c s local.target p local.single valid change s' (
          prepare-kept P files layer dumps c s local.target p local.single valid old there content))
        (λ h.
          subst (IsUndoable P rollback files names original) (sym (continue-pure kept.0 tt kept.1))
            (record_modification-IsUndoable P rollback files names s.world original p disk' c.now
              (codes c.tool.name) (c.run disk).0.summary (local.outside s.world.disk p valid) u old
              content
              (λ q k.
                local.only p q (backed_up (length s.world.entries) p old) valid k
                ∙ read-backed_disk s.world.disk p q (length s.world.entries) old)))
        (λ h.
          unused_backup-IsUndoable P rollback files names s.world original p disk' old
            (λ q.
              local.harmless_failure disk q h
              ∙ read-backed_disk s.world.disk p q (length s.world.entries) old)
            u)

  -- `pre_action` raised: the tool does not run.
  refused_call :
      (c : Call P) (local : IsLocal P layer c) (s s' : State P) (x : Error)
      → prepare P layer local.target s ≡ (err x, s')
      → Undo s'
      → Undo (execute_tool_safely P layer dumps c.now c.tool c.args c.run s).1
  unfolding execute_tool_safely pre_action prepare_all
  refused_call c local s s' x h u = rw (local.single, h) u

  prepare_invalid :
      (s : State P) (target : Text) (x : Error)
      → validate_path P boundary s.world.disk (text target) ≡ err x
      → prepare P layer target s ≡ (err x, s)
  unfolding prepare
  prepare_invalid s target x h = rw (h, prepare)

  -- Every local call keeps the log undoable, whatever it meets.
  execute-IsUndoable :
      (c : Call P) (local : IsLocal P layer c) (s : State P)
      → Undo s
      → Undo (execute_tool_safely P layer dumps c.now c.tool c.args c.run s).1
  execute-IsUndoable c local s u =
      elim (Result-cases (validate_path P boundary s.world.disk (text local.target))) [
        | inr (x, h) ↦ refused_call c local s s x (prepare_invalid s local.target x h) u
        | inl (p, valid) ↦ elim (Bool-cases (P.exists s.world.disk p)) [
          | inr gone ↦ fresh_call c local s p valid gone u
          | inl there ↦ elim (Option-cases (P.read s.world.disk p)) [
            | inr (old, content) ↦ kept_call c local s p old valid there content u
            | inl empty ↦
                let (x, h) =
                  prepare_failed P files layer dumps c s local.target p local.single valid there
                    empty in
                let made =
                  P.mkdir s.world.disk
                    (P.parent (backup_at P rollback (length s.world.entries) p)) in
                refused_call c local s (record s { world = record s.world { disk = made } }) x h
                  (IsUndoable-same_reads s.world made (λ q. files.read-mkdir s.world.disk _ q) u)
          ]
        ]
      ]

  run_calls-IsUndoable :
      (calls : List (Call P)) (s : State P)
      → All (IsLocal P layer) calls
      → Undo s
      → Undo (run_calls P layer dumps calls s)
  unfolding run_calls
  run_calls-IsUndoable [] s l u = u
  run_calls-IsUndoable (c ∷ calls) s (local, l) u =
      run_calls-IsUndoable calls _ l (execute-IsUndoable c local s u)

-- With files that keep what is written and names that are told apart: after any sequence of calls that
-- each change at most the one file that their path argument resolves to on the disk they start on, a
-- file outside the backup directory, and change nothing when they fail, `undo_all` succeeds and leaves no entry, and every
-- path outside the backup directory reads as before the first call.
pub undo_all-run_calls :
    (P : Platform) ⦃e : Eq P.FilePath⦄ (files : HasFiles P) (names : HasNames P)
    (layer : SafetyLayer P) (dumps : Fields → Text) (calls : List (Call P)) (s : State P)
    → All (IsLocal P layer) calls
    → s.world.entries ≡ []
    → let after = (run_calls P layer dumps calls s).world in
      let (result, restored) = undo_all P layer.rollback after in
      (undone : List RollbackEntry) × (result ≡ ok undone)
      × (restored.entries ≡ [])
      × (outside_storage P layer.rollback (P.read restored.disk)
          ≡ outside_storage P layer.rollback (P.read s.world.disk))
undo_all-run_calls P files names layer dumps calls s local none_yet =
    let (newest, h, u) =
      run_calls-IsUndoable P files names layer dumps (P.read s.world.disk) calls s local
        ([], none_yet, λ q k. refl) in
    let (a, b, c) =
      undo_all-outside_storage P layer.rollback files names newest
        (run_calls P layer dumps calls s).world (P.read s.world.disk) h u in
    (newest, a, b, c)
