-- ===== src/Safety/Rollback/Names.antt =====
-- Backups of different rounds never share a file.
use local_agent_cli.Base.{
  [], ap, arith, contains, contains-append, false, list_eq, nat_eq, refl, string_eq, true, ℕ, ◌++◌,
  ◌+◌, ◌==◌, ◌∷◌, ◌≡◌, ◌≢◌,
}
use local_agent_cli.Base.Text.{Text, codes, replace}
use local_agent_cli.Platform.{HasNames, Platform, is_file_name}
use local_agent_cli.Base.Decimal.{contains-padded, leading_number, leading_number-padded, padded}
use local_agent_cli.Safety.Rollback.{RollbackManager, backup_name, log_path, safe_name}

contains-replace :
    (new old : ℕ) (s : Text) → (old == new) ≡ false → contains (replace old new s) old ≡ false
unfolding replace
contains-replace new old [] h = refl
contains-replace new old (c ∷ s) h = ground (arith, contains-replace new old s h)

module _ (P : Platform) (m : RollbackManager P) where
  -- The number that a backup's name begins with is the round that it was made in.
  leading_number-backup_name :
      (count : ℕ) (file_path : P.FilePath)
      → leading_number 0 (backup_name P m count file_path) ≡ count + 1
  unfolding backup_name codes leading_number
  leading_number-backup_name count file_path =
      leading_number-padded 3 (count + 1) (codes "_" ++ safe_name P m file_path)

  contains-backup_name :
      (count : ℕ) (file_path : P.FilePath) → contains (backup_name P m count file_path) b'/' ≡ false
  unfolding backup_name codes nat_eq replace
  contains-backup_name count file_path =
      rw
        (
          contains-append (padded 3 (count + 1)) (codes "_" ++ safe_name P m file_path) b'/',
          contains-padded 3 (count + 1),
        )
        (contains-replace b'_' b'/' (replace b'\\' b'_' (P.to_str file_path)) (ground arith))

  pub backup_name-is_file_name :
      (count : ℕ) (file_path : P.FilePath) → is_file_name (backup_name P m count file_path) ≡ true
  unfolding leading_number nat_eq
  backup_name-is_file_name count file_path =
      let a = backup_name P m count file_path in
      let n = leading_number-backup_name count file_path in
      let empty : (a == []) ≡ false = ground (arith, n, ap (leading_number 0)) in
      let dot : (a == b'.' ∷ []) ≡ false = ground (arith, n, ap (leading_number 0)) in
      let dots : (a == b'.' ∷ b'.' ∷ []) ≡ false = ground (arith, n, ap (leading_number 0)) in
      rw (contains-backup_name count file_path, empty, dot, dots) refl

  -- Where two entries of a directory with one path have one name: two backups with one path were made
  -- in one round, whatever files they are of.
  pub backup_name-injective :
      (names : HasNames P) (i j : ℕ) (p q : P.FilePath)
      → P.child m.storage (backup_name P m i p) ≡ P.child m.storage (backup_name P m j q)
      → i ≡ j
  backup_name-injective names i j p q h =
      let same =
        names.child-injective m.storage (backup_name P m i p) (backup_name P m j q)
          (backup_name-is_file_name i p) (backup_name-is_file_name j q) h in
      omega (
        arith,
        leading_number-backup_name i p,
        leading_number-backup_name j q,
        ap (leading_number 0) same,
      )

  pub log-is_file_name : is_file_name (codes "rollback_log.json") ≡ true
  unfolding codes nat_eq list_eq
  log-is_file_name = refl

  -- The log is no backup.
  pub log_path-ne-backup :
      (names : HasNames P) (i : ℕ) (p : P.FilePath)
      → log_path P m ≢ P.child m.storage (backup_name P m i p)
  unfolding leading_number codes nat_eq
  log_path-ne-backup names i p h =
      let same =
        names.child-injective m.storage (codes "rollback_log.json") (backup_name P m i p)
          log-is_file_name (backup_name-is_file_name i p) h in
      omega (arith, leading_number-backup_name i p, ap (leading_number 0) same)
