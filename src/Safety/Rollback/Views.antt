-- ===== src/Safety/Rollback/Views.antt =====
-- Undo as a function of what can be read: the specification that the rollback log is held to.
use local_agent_cli.Base.{
  Bool, Eq, List, Option, [], ap, arith, false, if◌then◌else◌, length, list_eq, nat_eq, none, some,
  string_eq, suc, sym, ℕ, ◌<◌, ◌==◌, ◌∙◌, ◌∷◌, ◌≡◌, ◌≢◌,
}
use local_agent_cli.Base.Text.{Text, codes}
use local_agent_cli.Safety.Rollback.Names.{backup_name-is_file_name}
use local_agent_cli.Platform.{HasNames, Platform}
use local_agent_cli.Safety.Rollback.{RollbackEntry, RollbackManager, backup_name}

-- What each path holds.
abbrev pub View : Platform → Type 0
View P = P.FilePath → Option Text

module _ (P : Platform) ⦃e : Eq P.FilePath⦄ (m : RollbackManager P) where
  abbrev pub backup_at : ℕ → P.FilePath → P.FilePath
  backup_at count p = P.child m.storage (backup_name P m count p)

  -- A path below the manager's own directory.
  abbrev pub is_stored : P.FilePath → Bool
  is_stored q = P.is_relative_to q m.storage

  -- A view without what is below that directory.
  unfoldable pub outside_storage : View P → View P
  outside_storage v q = if is_stored q then none else v q

  abbrev pub target_of : RollbackEntry → P.FilePath
  target_of entry = P.from_str entry.file_path

  -- The entry that the round of this number leaves.
  pub data IsRound (count : ℕ) (entry : RollbackEntry) : Type 0 where
    created :
        entry.action ≡ codes "created"
        → entry.backup_path ≡ none
        → is_stored (target_of entry) ≡ false
        → IsRound count entry
    modified :
        (p : P.FilePath)
        → entry.action ≡ codes "modified"
        → entry.backup_path ≡ some (P.to_str (backup_at count p))
        → is_stored (target_of entry) ≡ false
        → IsRound count entry

  abbrev pub saved : Option Text → View P → Option Text
  saved none v = none
  saved (some backup) v = v (P.from_str backup)

  -- What can be read after an entry is undone.
  abbrev pub undo_view : RollbackEntry → View P → View P
  undo_view entry v q = if q == target_of entry then saved entry.backup_path v else v q

  abbrev pub IsReadable : Option Text → View P → Type 0
  IsReadable none v = Unit
  IsReadable (some backup) v = v (P.from_str backup) ≢ none

  -- Undoing the entries, the newest first, gives back the original outside the storage.
  abbrev pub Undoable : List RollbackEntry → View P → View P → Type 0
  Undoable [] v original = (q : P.FilePath) → is_stored q ≡ false → v q ≡ original q
  Undoable (entry ∷ older) v original =
      IsRound (length older) entry
      × IsReadable entry.backup_path v
      × Undoable older (undo_view entry v) original

  -- Two views that undoing `count` rounds cannot tell apart.
  pub record Agrees (count : ℕ) (v w : View P) : Type 0 where
    pub outside : (q : P.FilePath) → is_stored q ≡ false → v q ≡ w q
    pub backups : (k : ℕ) (p : P.FilePath) → k < count → v (backup_at k p) ≡ w (backup_at k p)

  stored-ne :
      (names : HasNames P) (k : ℕ) (p q : P.FilePath)
      → is_stored q ≡ false
      → (backup_at k p == q) ≡ false
  stored-ne names k p q h = ground (
    arith,
    names.child-is_relative_to m.storage (backup_name P m k p) (backup_name-is_file_name P m k p),
    ap is_stored,
  )

  Agrees-undo_view :
      (names : HasNames P) (count : ℕ) (entry : RollbackEntry) (v w : View P)
      → IsRound count entry
      → Agrees (suc count) v w
      → Agrees count (undo_view entry v) (undo_view entry w)
  Agrees-undo_view names count entry v w (created a b s) g = record {
    outside = λ q h. ground (arith, g.outside q h);
    backups = λ k p lt.
        ground (arith, g.backups k p (omega arith), stored-ne names k p (target_of entry) s);
  }
  Agrees-undo_view names count entry v w (modified p' a b s) g = record {
    outside = λ q h.
        rw (b, names.from_str-to_str (backup_at count p'))
          (ground (arith, g.outside q h, g.backups count p' (omega arith)));
    backups = λ k p lt.
        ground (arith, g.backups k p (omega arith), stored-ne names k p (target_of entry) s);
  }

  Agrees-IsReadable :
      (names : HasNames P) (count : ℕ) (entry : RollbackEntry) (v w : View P)
      → IsRound count entry
      → Agrees (suc count) v w
      → IsReadable entry.backup_path v
      → IsReadable entry.backup_path w
  Agrees-IsReadable names count entry v w (created a b s) g r = rw b tt
  Agrees-IsReadable names count entry v w (modified p a b s) g r =
      let r' = rw (b, names.from_str-to_str (backup_at count p)) at r in
      rw (b, names.from_str-to_str (backup_at count p))
        (λ gone. r' (g.backups count p (omega arith) ∙ gone))

  pub Undoable-Agrees :
      (names : HasNames P) (entries : List RollbackEntry) (v w original : View P)
      → Agrees (length entries) v w
      → Undoable entries v original
      → Undoable entries w original
  Undoable-Agrees names [] v w original g u = λ q h. sym (g.outside q h) ∙ u q h
  Undoable-Agrees names (entry ∷ older) v w original g (round, r, u) = (
    round,
    Agrees-IsReadable names (length older) entry v w round g r,
    Undoable-Agrees names older (undo_view entry v) (undo_view entry w) original
        (Agrees-undo_view names (length older) entry v w round g) u,
  )
