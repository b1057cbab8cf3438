-- ===== src/Safety/Rollback/Rounds.antt =====
-- One round of backup, change and record keeps the log undoable.
use local_agent_cli.Base.{
  Eq, List, [], ap, arith, false, length, list_eq, nat_eq, none, refl, some, sym, true, ℕ, ◌++◌,
  ◌<◌, ◌==◌, ◌∙◌, ◌∷◌, ◌≡◌, ◌≢◌,
}
use local_agent_cli.Platform.{HasFiles, HasNames, Platform}
use local_agent_cli.Safety.Rollback.{
  RollbackEntry, RollbackManager, World, append_entry, backup_name, log_path, new_entry,
  record_creation, record_modification, write_log,
}
use local_agent_cli.Safety.Rollback.Names.{
  backup_name-injective, backup_name-is_file_name, log-is_file_name, log_path-ne-backup,
}
use local_agent_cli.Safety.Rollback.Undo.{chronological, length-chronological}
use local_agent_cli.Safety.Rollback.Views.{
  Agrees, Undoable, Undoable-Agrees, View, backup_at, created, is_stored, modified, saved,
  target_of, undo_view,
}
use local_agent_cli.Base.Text.{Text, codes}

module _ (P : Platform) ⦃e : Eq P.FilePath⦄ (m : RollbackManager P) (files : HasFiles P)
    (names : HasNames P) where
  -- What one round may do to the disk: nothing outside the storage but at `p`, and nothing to the
  -- backups of earlier rounds.
  pub record Touches (count : ℕ) (p : P.FilePath) (v w : View P) : Type 0 where
    pub elsewhere : (q : P.FilePath) → is_stored P m q ≡ false → (q == p) ≡ false → w q ≡ v q
    pub earlier :
        (k : ℕ) (p' : P.FilePath) → k < count → w (backup_at P m k p') ≡ v (backup_at P m k p')

  Touches-Agrees :
      (count : ℕ) (p : P.FilePath) (v w : View P) (entry : RollbackEntry)
      → target_of P m entry ≡ p
      → is_stored P m p ≡ false
      → saved P m entry.backup_path w ≡ v p
      → Touches count p v w
      → Agrees P m count v (undo_view P m entry w)
  Touches-Agrees count p v w entry t s b touches = record {
    outside = λ q h. ground (arith, touches.elsewhere q h);
    backups = λ k p' lt. ground (
      arith,
      touches.earlier k p' lt,
      names.child-is_relative_to m.storage (backup_name P m k p')
          (backup_name-is_file_name P m k p'),
      ap (is_stored P m),
    );
  }

  created_round :
      (es : List RollbackEntry) (p : P.FilePath) (v w original : View P) (entry : RollbackEntry)
      → entry.action ≡ codes "created"
      → entry.backup_path ≡ none
      → target_of P m entry ≡ p
      → is_stored P m p ≡ false
      → v p ≡ none
      → Touches (length es) p v w
      → Undoable P m es v original
      → Undoable P m (entry ∷ es) w original
  created_round es p v w original entry a b t s gone touches u = (
    created a b (rw t s),
    rw b tt,
    Undoable-Agrees P m names es v (undo_view P m entry w) original
        (Touches-Agrees (length es) p v w entry t s (rw b (sym gone)) touches) u,
  )

  modified_round :
      (es : List RollbackEntry) (p : P.FilePath) (v w original : View P) (entry : RollbackEntry)
      → entry.action ≡ codes "modified"
      → entry.backup_path ≡ some (P.to_str (backup_at P m (length es) p))
      → target_of P m entry ≡ p
      → is_stored P m p ≡ false
      → w (backup_at P m (length es) p) ≡ v p
      → v p ≢ none
      → Touches (length es) p v w
      → Undoable P m es v original
      → Undoable P m (entry ∷ es) w original
  modified_round es p v w original entry a b t s kept there touches u =
      let same = names.from_str-to_str (backup_at P m (length es) p) in
      (
        modified p a b (rw t s),
        rw (b, same) (λ q. there (sym kept ∙ q)),
        Undoable-Agrees P m names es v (undo_view P m entry w) original
            (Touches-Agrees (length es) p v w entry t s (rw (b, same) kept) touches) u,
      )

  log-stored : is_stored P m (log_path P m) ≡ true
  log-stored =
      names.child-is_relative_to m.storage (codes "rollback_log.json") (log-is_file_name P m)

  backup-stored : (k : ℕ) (p : P.FilePath) → is_stored P m (backup_at P m k p) ≡ true
  backup-stored k p =
      names.child-is_relative_to m.storage (backup_name P m k p) (backup_name-is_file_name P m k p)

  stored-ne-outside :
      (q p : P.FilePath) → is_stored P m q ≡ true → is_stored P m p ≡ false → (q == p) ≡ false
  stored-ne-outside q p h k = ground (arith, ap (is_stored P m))

  outside-ne-stored :
      (q p : P.FilePath) → is_stored P m q ≡ false → is_stored P m p ≡ true → (q == p) ≡ false
  outside-ne-stored q p h k = ground (arith, ap (is_stored P m))

  backup-ne-log : (k : ℕ) (p : P.FilePath) → (backup_at P m k p == log_path P m) ≡ false
  backup-ne-log k p = ground (arith, log_path-ne-backup P m names k p)

  backup-ne-backup :
      (k n : ℕ) (p p' : P.FilePath) → k < n → (backup_at P m k p == backup_at P m n p') ≡ false
  backup-ne-backup k n p p' lt = ground (arith, backup_name-injective P m names k n p p')

  -- A change at `p` alone, and then the log.
  module _ (count : ℕ) (p : P.FilePath) (outside : is_stored P m p ≡ false) (disk disk' : P.Disk)
      (log : Text)
      (changed : (q : P.FilePath) → (q == p) ≡ false → P.read disk' q ≡ P.read disk q) where
    Touches-log : Touches count p (P.read disk) (P.read (P.write disk' (log_path P m) log))
    Touches-log = record {
      elsewhere = λ q h k. ground (
        arith,
        files.read-write disk' (log_path P m) q log,
        outside-ne-stored q (log_path P m) h log-stored,
        changed q k,
      );
      earlier = λ k p' lt. ground (
        arith,
        files.read-write disk' (log_path P m) (backup_at P m k p') log,
        backup-ne-log k p',
        stored-ne-outside (backup_at P m k p') p (backup-stored k p') outside,
        changed (backup_at P m k p'),
      );
    }

  -- The same after a backup of `p` was made.
  module _ (count : ℕ) (p : P.FilePath) (outside : is_stored P m p ≡ false) (disk disk' : P.Disk)
      (log old : Text)
      (changed : (q : P.FilePath)
        → (q == p) ≡ false
        → P.read disk' q ≡ P.read (P.write disk (backup_at P m count p) old) q) where
    Touches-backup : Touches count p (P.read disk) (P.read (P.write disk' (log_path P m) log))
    Touches-backup = record {
      elsewhere = λ q h k. ground (
        arith,
        files.read-write disk' (log_path P m) q log,
        outside-ne-stored q (log_path P m) h log-stored,
        changed q k,
        files.read-write disk (backup_at P m count p) q old,
        outside-ne-stored q (backup_at P m count p) h (backup-stored count p),
      );
      earlier = λ k p' lt. ground (
        arith,
        files.read-write disk' (log_path P m) (backup_at P m k p') log,
        backup-ne-log k p',
        stored-ne-outside (backup_at P m k p') p (backup-stored k p') outside,
        changed (backup_at P m k p'),
        files.read-write disk (backup_at P m count p) (backup_at P m k p') old,
        backup-ne-backup k count p' p lt,
      );
    }

    backup_kept : P.read (P.write disk' (log_path P m) log) (backup_at P m count p) ≡ some old
    backup_kept = ground (
      arith,
      files.read-write disk' (log_path P m) (backup_at P m count p) log,
      backup-ne-log count p,
      stored-ne-outside (backup_at P m count p) p (backup-stored count p) outside,
      changed (backup_at P m count p),
      files.read-write disk (backup_at P m count p) (backup_at P m count p) old,
    )

  -- The world's entries can all be undone, which gives back the original.
  abbrev pub IsUndoable : View P → World P → Type 0
  IsUndoable original w =
      (newest : List RollbackEntry) × (w.entries ≡ chronological newest)
      × Undoable P m newest (P.read w.disk) original

  length-newest :
      (w : World P) (es : List RollbackEntry)
      → w.entries ≡ chronological es
      → length w.entries ≡ length es
  length-newest w es h = ap length h ∙ length-chronological es

  module _ (w : World P) (original : View P) (p : P.FilePath) (disk' : P.Disk)
      (now tool summary : Text) (outside : is_stored P m p ≡ false)
      (u : IsUndoable original w) where
    pub record_creation-IsUndoable :
        P.read w.disk p ≡ none
        → ((q : P.FilePath) → (q == p) ≡ false → P.read disk' q ≡ P.read w.disk q)
        → IsUndoable original (record_creation P m now p tool summary (record w { disk = disk' })).1
    unfolding record_creation append_entry write_log
    record_creation-IsUndoable gone changed =
        let (es, h, v) = u in
        let entry = new_entry P m (length w.entries) now tool p none (codes "created") summary in
        (
          entry ∷ es,
          ap (λ (l : List RollbackEntry). l ++ entry ∷ []) h,
          created_round es p (P.read w.disk) _ original entry refl refl (names.from_str-to_str p)
              outside gone (Touches-log (length es) p outside w.disk disk' _ changed) v,
        )

    pub record_modification-IsUndoable :
        (old : Text)
        → P.read w.disk p ≡ some old
        → ((q : P.FilePath)
            → (q == p) ≡ false
            → P.read disk' q ≡ P.read (P.write w.disk (backup_at P m (length w.entries) p) old) q)
        → IsUndoable original
            (record_modification P m now p
              (backup_at P m (length w.entries) p)
              tool
              summary
              (record w { disk = disk' })).1
    unfolding record_modification append_entry write_log
    record_modification-IsUndoable old there changed =
        let (es, h, v) = u in
        let n = length-newest w es h in
        let entry =
          new_entry P m (length w.entries) now tool p (some (backup_at P m (length w.entries) p))
            (codes "modified") summary in
        let changed' : (q : P.FilePath)
            → (q == p) ≡ false
            → P.read disk' q ≡ P.read (P.write w.disk (backup_at P m (length es) p) old) q =
          rw n at changed in
        (
          entry ∷ es,
          ap (λ (l : List RollbackEntry). l ++ entry ∷ []) h,
          modified_round es p (P.read w.disk) _ original entry refl (rw n) (names.from_str-to_str p)
              outside (backup_kept (length es) p outside w.disk disk' _ old changed' ∙ sym there)
              (λ q. cc) (Touches-backup (length es) p outside w.disk disk' _ old changed') v,
        )

  -- A backup that no entry refers to does not matter.
  pub unused_backup-IsUndoable :
      (w : World P) (original : View P) (p : P.FilePath) (disk' : P.Disk) (old : Text)
      → ((q : P.FilePath)
          → P.read disk' q ≡ P.read (P.write w.disk (backup_at P m (length w.entries) p) old) q)
      → IsUndoable original w
      → IsUndoable original (record w { disk = disk' })
  unused_backup-IsUndoable w original p disk' old same (es, h, u) =
      let same' : (q : P.FilePath)
          → P.read disk' q ≡ P.read (P.write w.disk (backup_at P m (length es) p) old) q =
        rw (length-newest w es h) at same in
      (
        es,
        h,
        Undoable-Agrees P m names es (P.read w.disk) (P.read disk') original
            (record {
              outside = λ q k. ground (
                arith,
                same' q,
                files.read-write w.disk (backup_at P m (length es) p) q old,
                outside-ne-stored q (backup_at P m (length es) p) k (backup-stored (length es) p),
              );
              backups = λ k p' lt. ground (
                arith,
                same' (backup_at P m k p'),
                files.read-write w.disk (backup_at P m (length es) p) (backup_at P m k p') old,
                backup-ne-backup k (length es) p' p lt,
              );
            })
            u,
      )
