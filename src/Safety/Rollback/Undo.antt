-- ===== src/Safety/Rollback/Undo.antt =====
-- `undo_last` and `undo_all` of localagentcli/safety/rollback.py restore what the log promises.
use mathlib.Core.Path.{fun_ext}
use local_agent_cli.Base.{
  Bool-cases, Eq, List, Option-cases, [], ap, append-nil, append_assoc, arith, false, inl, inr,
  length, length-append, list_eq, nat_eq, refl, some, string_eq, subst, sym, ℕ, ◌++◌, ◌∙◌, ◌∷◌, ◌≡◌,
}
use local_agent_cli.Base.Result.{Result, ok}
use local_agent_cli.Platform.{HasFiles, HasNames, Platform}
use local_agent_cli.Safety.Rollback.{
  RollbackEntry, RollbackManager, World, copy_file, log_path, make_directory, payload, split_last,
  undo_all, undo_entry, undo_last, undo_popped, undo_rounds, write_log,
}
use local_agent_cli.Base.Exec.{pure, ◌>>◌}
use local_agent_cli.Safety.Rollback.Names.{log-is_file_name, log_path-ne-backup}
use local_agent_cli.Safety.Rollback.Views.{
  Agrees, IsReadable, IsRound, Undoable, Undoable-Agrees, View, backup_at, created, is_stored,
  modified, outside_storage, target_of, undo_view,
}
use local_agent_cli.Base.Text.{Text, codes}

split_last-snoc {ℓ} : {A : Type ℓ} (xs : List A) (x : A) → split_last (xs ++ x ∷ []) ≡ some (xs, x)
unfolding split_last
split_last-snoc [] x = refl
split_last-snoc (y ∷ xs) x = rw (split_last-snoc xs x)

-- The entries as the manager keeps them, the newest last.
abbrev pub chronological {ℓ} : {A : Type ℓ} → List A → List A
chronological [] = []
chronological (x ∷ older) = chronological older ++ x ∷ []

pub length-chronological {ℓ} : {A : Type ℓ} (xs : List A) → length (chronological xs) ≡ length xs
length-chronological [] = refl
length-chronological (x ∷ xs) =
    omega (arith, length-append (chronological xs) (x ∷ []), length-chronological xs)

module _ (P : Platform) ⦃e : Eq P.FilePath⦄ (m : RollbackManager P) (files : HasFiles P)
    (names : HasNames P) where
  abbrev view : World P → View P
  view w = P.read w.disk

  undo_modified_lem :
      (count : ℕ) (entry : RollbackEntry) (w : World P) (p : P.FilePath) (t : Text)
      → entry.action ≡ codes "modified"
      → entry.backup_path ≡ some (P.to_str (backup_at P m count p))
      → view w (backup_at P m count p) ≡ some t
      → ((undo_entry P m entry w).0 ≡ ok tt)
        × ((undo_entry P m entry w).1.entries ≡ w.entries)
        × ((q : P.FilePath) → view (undo_entry P m entry w).1 q ≡ undo_view P m entry (view w) q)
  unfolding undo_entry copy_file make_directory codes
  undo_modified_lem count entry w p t a b h =
      let same = names.from_str-to_str (backup_at P m count p) in
      let made = P.mkdir w.disk (P.parent (target_of P m entry)) in
      let there =
        files.read-mkdir w.disk (P.parent (target_of P m entry)) (backup_at P m count p) ∙ h in
      (
        ground (arith, same, there),
        ground (arith, same, there),
        λ q. ground (
          arith,
          same,
          there,
          files.read-write made (target_of P m entry) q t,
          files.read-mkdir w.disk (P.parent (target_of P m entry)) q,
        ),
      )

  -- What undoing one recorded round does: it succeeds, keeps the entries, and the disk reads as the
  -- specification says.
  undo_entry_lem :
      (count : ℕ) (entry : RollbackEntry) (w : World P)
      → IsRound P m count entry
      → IsReadable P m entry.backup_path (view w)
      → ((undo_entry P m entry w).0 ≡ ok tt)
        × ((undo_entry P m entry w).1.entries ≡ w.entries)
        × ((q : P.FilePath) → view (undo_entry P m entry w).1 q ≡ undo_view P m entry (view w) q)
  unfolding undo_entry copy_file make_directory codes
  undo_entry_lem count entry w (created a b s) r = (
    ground arith,
    ground arith,
    λ q. ground (
      arith,
      files.read-unlink w.disk (target_of P m entry) q,
      files.read_missing w.disk (target_of P m entry),
    ),
  )
  undo_entry_lem count entry w (modified p a b s) r =
      elim (Option-cases (view w (backup_at P m count p))) [
        | inl gone ↦ absurd (rw (b, names.from_str-to_str (backup_at P m count p)) at r gone)
        | inr (t, q) ↦ undo_modified_lem count entry w p t a b q
      ]

  write_log-Agrees :
      (count : ℕ) (w : World P) → Agrees P m count (view w) (view (write_log P m w).1)
  unfolding write_log
  write_log-Agrees count w = record {
    outside = λ q h. ground (
      arith,
      files.read-write w.disk (log_path P m) q (m.codec.dumps (payload P m w.entries)),
      names.child-is_relative_to m.storage (codes "rollback_log.json") (log-is_file_name P m),
      ap (is_stored P m),
    );
    backups = λ k p lt. ground (
      arith,
      files.read-write w.disk (log_path P m) (backup_at P m k p)
          (m.codec.dumps (payload P m w.entries)),
      log_path-ne-backup P m names k p,
    );
  }

  -- What a successful undo of the newest entry is, for the entries before it.
  abbrev IsUndone :
      RollbackEntry → List RollbackEntry → View P → Result RollbackEntry × World P → Type 0
  IsUndone entry older original (result, w) =
      (result ≡ ok entry) × (w.entries ≡ chronological older) × Undoable P m older (view w) original

  undo_last_from :
      (entry : RollbackEntry) (older : List RollbackEntry) (w : World P) (original : View P)
      → w.entries ≡ chronological older
      → Undoable P m (entry ∷ older) (view w) original
      → IsUndone entry older original ((undo_entry P m entry >> write_log P m >> pure entry) w)
  unfolding write_log
  undo_last_from entry older w original h (round, r, u) =
      let (a, b, c) = undo_entry_lem (length older) entry w round r in
      let after : World P = (undo_entry P m entry w).1 in
      let same = write_log-Agrees (length older) after in
      let u' : Undoable P m older (view after) original =
        subst (λ v. Undoable P m older v original) (sym (fun_ext c)) u in
      rw a (
        refl,
        b ∙ h,
        Undoable-Agrees P m names older (view after) (view (write_log P m after).1) original same
            u',
      )

  undo_last_lem :
      (entry : RollbackEntry) (older : List RollbackEntry) (w : World P) (original : View P)
      → w.entries ≡ chronological (entry ∷ older)
      → Undoable P m (entry ∷ older) (view w) original
      → IsUndone entry older original (undo_last P m w)
  unfolding undo_last
  undo_last_lem entry older w original h u =
      subst (λ popped. IsUndone entry older original (undo_popped P m popped w))
        (sym (ap split_last h ∙ split_last-snoc (chronological older) entry))
        (undo_last_from entry older (record w { entries = chronological older }) original refl u)

  abbrev IsAllUndone : List RollbackEntry → View P → Result (List RollbackEntry) × World P → Type 0
  IsAllUndone undone original (result, w) =
      (result ≡ ok undone)
      × (w.entries ≡ [])
      × ((q : P.FilePath) → is_stored P m q ≡ false → view w q ≡ original q)

  undo_rounds_lem :
      (newest undone : List RollbackEntry) (w : World P) (original : View P)
      → w.entries ≡ chronological newest
      → Undoable P m newest (view w) original
      → IsAllUndone (undone ++ newest) original (undo_rounds P m (length newest) undone w)
  unfolding undo_rounds
  undo_rounds_lem [] undone w original h u = (ap ok (sym (append-nil undone)), h, u)
  undo_rounds_lem (entry ∷ older) undone w original h u =
      let (a, b, c) = undo_last_lem entry older w original h u in
      let next = undo_last P m w in
      let rest = undo_rounds_lem older (undone ++ entry ∷ []) next.1 original b c in
      rw a (
        subst
          (λ l.
            IsAllUndone l original (undo_rounds P m (length older) (undone ++ entry ∷ []) next.1))
          (append_assoc undone (entry ∷ []) older) rest)

  undo_all_lem :
      (newest : List RollbackEntry) (w : World P) (original : View P)
      → w.entries ≡ chronological newest
      → Undoable P m newest (view w) original
      → IsAllUndone newest original (undo_all P m w)
  unfolding undo_all
  undo_all_lem newest w original h u =
      subst (λ rounds. IsAllUndone newest original (undo_rounds P m rounds [] w))
        (sym (ap length h ∙ length-chronological newest)) (undo_rounds_lem newest [] w original h u)

  outside_storage_equal :
      (v original : View P)
      → ((q : P.FilePath) → is_stored P m q ≡ false → v q ≡ original q)
      → outside_storage P m v ≡ outside_storage P m original
  unfolding outside_storage
  outside_storage_equal v original h = fun_ext (λ q. elim (Bool-cases (is_stored P m q)) [
    | inl stored ↦ rw stored refl
    | inr free ↦ rw free (h q free)
  ])

  -- With files that keep what is written and names that are told apart: where undoing the entries,
  -- the newest first, is specified to give back a view, `undo_all` returns all entries in that order,
  -- leaves none, and every path outside the manager's storage reads as in that view.
  pub undo_all-outside_storage :
      (newest : List RollbackEntry) (w : World P) (original : View P)
      → w.entries ≡ chronological newest
      → Undoable P m newest (view w) original
      → ((undo_all P m w).0 ≡ ok newest)
        × ((undo_all P m w).1.entries ≡ [])
        × (outside_storage P m (view (undo_all P m w).1) ≡ outside_storage P m original)
  undo_all-outside_storage newest w original h u =
      let (a, b, c) = undo_all_lem newest w original h u in
      (a, b, outside_storage_equal (view (undo_all P m w).1) original c)
