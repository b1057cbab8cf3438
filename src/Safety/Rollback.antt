-- ===== src/Safety/Rollback.antt =====
-- localagentcli/safety/rollback.py: backups, the rollback log, and undo.
mod Entry
pub mod Log
pub mod Names
pub mod Views
pub mod Undo
pub mod Rounds
unfoldable pub use Entry.*
use local_agent_cli.Base.{
  List, Option, [], if◌then◌else◌, length, list_eq, map, nat_eq, none, not, some, suc, zero, ℕ,
  ◌++◌, ◌+◌, ◌==◌, ◌∷◌,
}
use local_agent_cli.Base.Result.{Result, err, file_not_found, ok, value_error}
use mathlib.Core.Option
use local_agent_cli.Base.Exec.{Exec, pure, raise, ◌>>=◌, ◌>>◌}
use local_agent_cli.Base.Text.{Text, codes, replace}
use local_agent_cli.Base.Decimal.{padded}
use local_agent_cli.Base.Json.{Json, arr, end, field, obj, str}
use local_agent_cli.Platform.{Platform}

-- What a manager is given when it is made.
pub record RollbackManager (P : Platform) : Type 0 where
  pub session_id : Text
  pub storage : P.FilePath
  pub codec : Codec

-- What its methods change: the disk, and the entries, the newest last.
pub record World (P : Platform) : Type 0 where
  pub disk : P.Disk
  pub entries : List RollbackEntry

-- `entries.pop()`
unfoldable pub split_last {ℓ} : {A : Type ℓ} → List A → Option (List A × A)
split_last [] = none
split_last (x ∷ xs) = elim (split_last xs) [
  | none ↦ some ([], x)
  | some (rest, last) ↦ some (x ∷ rest, last)
]

module _ (P : Platform) (m : RollbackManager P) where
  abbrev pub log_path : P.FilePath
  log_path = P.child m.storage (codes "rollback_log.json")

  abbrev pub payload : List RollbackEntry → Json
  payload entries =
      obj (field "session_id" (str m.session_id) (field "entries" (arr (entry_items entries)) end))

  unfoldable pub write_log : Exec (World P) (Unit {0})
  unfolding entry_items
  write_log w =
      (ok tt, record w { disk = P.write w.disk log_path (m.codec.dumps (payload w.entries)) })

  -- `shutil.copyfile`, `shutil.copy2`: the content of `source` goes to `target`.
  unfoldable pub copy_file : P.FilePath → P.FilePath → Exec (World P) (Unit {0})
  copy_file source target w = elim (P.read w.disk source) [
    | none ↦ (err (file_not_found (P.to_str source)), w)
    | some content ↦ (ok tt, record w { disk = P.write w.disk target content })
  ]

  unfoldable pub safe_name : P.FilePath → Text
  safe_name file_path = replace b'/' b'_' (replace b'\\' b'_' (P.to_str file_path))

  unfoldable pub backup_name : ℕ → P.FilePath → Text
  unfolding safe_name
  backup_name count file_path = padded 3 (count + 1) ++ (codes "_" ++ safe_name file_path)

  -- `path.mkdir(parents=True, exist_ok=True)`
  unfoldable pub make_directory : P.FilePath → Exec (World P) (Unit {0})
  make_directory p w = (ok tt, record w { disk = P.mkdir w.disk p })

  unfoldable pub backup_file : P.FilePath → Exec (World P) P.FilePath
  unfolding copy_file make_directory
  backup_file file_path w =
      let backup_path = P.child m.storage (backup_name (length w.entries) file_path) in
      if not (P.exists w.disk file_path)
      then raise
          (file_not_found
            (codes "Cannot back up missing file '" ++ (P.to_str file_path ++ codes "'")))
          w
      else (make_directory (P.parent backup_path)
            >> copy_file file_path backup_path
            >> pure backup_path)
          w

  -- The entry that `_append_entry` makes: `now` is the clock's text.
  abbrev pub new_entry :
      ℕ → Text → Text → P.FilePath → Option P.FilePath → Text → Text → RollbackEntry
  new_entry count now tool file_path backup_path action summary = record {
    index = count + 1;
    timestamp = now;
    tool = tool;
    file_path = P.to_str file_path;
    backup_path = Option.map P.to_str backup_path;
    action = action;
    summary = summary;
  }

  unfoldable pub append_entry :
      Text → Text → P.FilePath → Option P.FilePath → Text → Text → Exec (World P) RollbackEntry
  unfolding write_log
  append_entry now tool file_path backup_path action summary w =
      let entry = new_entry (length w.entries) now tool file_path backup_path action summary in
      (write_log >> pure entry) (record w { entries = w.entries ++ entry ∷ [] })

  unfoldable pub record_creation : Text → P.FilePath → Text → Text → Exec (World P) RollbackEntry
  unfolding append_entry
  record_creation now file_path tool summary =
      append_entry now tool file_path none (codes "created") summary

  unfoldable pub record_modification :
      Text → P.FilePath → P.FilePath → Text → Text → Exec (World P) RollbackEntry
  unfolding append_entry
  record_modification now file_path backup_path tool summary =
      append_entry now tool file_path (some backup_path) (codes "modified") summary

  -- Undoing one entry on the disk, by its action.
  unfoldable pub undo_entry : RollbackEntry → Exec (World P) (Unit {0})
  unfolding copy_file make_directory
  undo_entry entry w =
      let target = P.from_str entry.file_path in
      if entry.action == codes "created"
      then (ok tt, if P.exists w.disk target then record w { disk = P.unlink w.disk target } else w)
      else if entry.action == codes "modified"
      then elim entry.backup_path [
        | none ↦ (err (value_error (codes "Rollback entry is missing a backup path.")), w)
        | some backup ↦ (make_directory (P.parent target) >> copy_file (P.from_str backup) target) w
      ]
      else (
        err (value_error (codes "Unsupported rollback action '" ++ (entry.action ++ codes "'"))),
        w,
      )

  -- What follows `self._entries.pop()`, which comes before anything that may raise.
  abbrev pub undo_popped :
      Option (List RollbackEntry × RollbackEntry) → Exec (World P) RollbackEntry
  undo_popped none w =
      (err (value_error (codes "No rollback history is available for this session.")), w)
  undo_popped (some (rest, entry)) w =
      (undo_entry entry >> write_log >> pure entry) (record w { entries = rest })

  unfoldable pub undo_last : Exec (World P) RollbackEntry
  undo_last w = undo_popped (split_last w.entries) w

  -- `while self._entries`: each round pops one entry, so there are as many rounds as entries.
  unfoldable pub undo_rounds : ℕ → List RollbackEntry → Exec (World P) (List RollbackEntry)
  undo_rounds zero undone w = (ok undone, w)
  undo_rounds (suc rounds) undone w =
      (undo_last >>= λ entry. undo_rounds rounds (undone ++ entry ∷ [])) w

  unfoldable pub undo_all : Exec (World P) (List RollbackEntry)
  undo_all w = undo_rounds (length w.entries) [] w

  unfoldable pub get_history : World P → List RollbackEntry
  get_history w = w.entries

  unfoldable pub load_log : P.Disk → Result (List RollbackEntry)
  unfolding load_items
  load_log disk = if not (P.exists disk log_path) then ok [] else elim (P.read disk log_path) [
    | none ↦ err (file_not_found (P.to_str log_path))
    | some text ↦ elim (m.codec.loads text) [
      | err e ↦ err e
      | ok loaded ↦ load_payload m.codec loaded
    ]
  ]
