-- ===== src/Safety/Rollback/Log.antt =====
-- The rollback log on disk: what a manager wrote, the next one loads.
use local_agent_cli.Base.{
  All, Eq, List, Option, [], arith, list_eq, nat_eq, none, refl, some, string_eq, ◌∷◌, ◌≡◌, ◌≢◌,
}
use local_agent_cli.Base.Text.{Text}
use local_agent_cli.Base.Result.{ok}
use local_agent_cli.Base.Json.{Json, get, truthy}
use local_agent_cli.Platform.{HasFiles, Platform, read-write_self}
use local_agent_cli.Safety.Rollback.{
  Codec, RollbackEntry, RollbackManager, RoundTrips, World, backup_path_of, entry_items, from_dict,
  item, load_items, load_log, log_path, optional_text, payload, to_dict, write_log,
}

-- A backup path that is there is not the empty text, which `from_dict` would read as none.
abbrev pub HasBackupText : Option Text → Type 0
HasBackupText none = Unit
HasBackupText (some t) = t ≢ []

abbrev pub IsStorable : RollbackEntry → Type 0
IsStorable entry = HasBackupText entry.backup_path

module _ (c : Codec) (document : Json) (trips : RoundTrips c document) where
  backup_path_of-optional_text :
      (backup : Option Text)
      → HasBackupText backup
      → backup_path_of c (some (optional_text backup)) ≡ backup
  unfolding backup_path_of truthy
  backup_path_of-optional_text none h = refl
  backup_path_of-optional_text (some t) h = ground (arith, trips.str_of_str t, h)

  from_dict-to_dict :
      (entry : RollbackEntry) → IsStorable entry → from_dict c (to_dict entry) ≡ ok entry
  unfolding from_dict to_dict item get string_eq
  from_dict-to_dict entry h = rw (
    trips.int_of_num entry.index,
    trips.str_of_str entry.timestamp,
    trips.str_of_str entry.tool,
    trips.str_of_str entry.file_path,
    trips.str_of_str entry.action,
    trips.str_of_str entry.summary,
    backup_path_of-optional_text entry.backup_path h,
  )

  load_items-entry_items :
      (entries : List RollbackEntry)
      → All IsStorable entries
      → load_items c (entry_items entries) ≡ ok entries
  unfolding load_items entry_items
  load_items-entry_items [] h = refl
  load_items-entry_items (entry ∷ rest) h =
      rw (from_dict-to_dict entry h.0, load_items-entry_items rest h.1)

module _ (P : Platform) ⦃e : Eq P.FilePath⦄ (m : RollbackManager P) where
  -- With a JSON codec that loses nothing of the log and files that keep what is written: the log that a manager
  -- writes is loaded as the same entries, if no entry has an empty backup path.
  pub load_log-write_log :
      (files : HasFiles P) (w : World P) (trips : RoundTrips m.codec (payload P m w.entries))
      → All IsStorable w.entries
      → load_log P m (write_log P m w).1.disk ≡ ok w.entries
  unfolding load_log write_log get string_eq
  load_log-write_log files w trips h = rw (
    files.exists-write w.disk (log_path P m) (m.codec.dumps (payload P m w.entries)),
    read-write_self P files w.disk (log_path P m) (m.codec.dumps (payload P m w.entries)),
    trips.loads-dumps,
    load_items-entry_items m.codec (payload P m w.entries) trips w.entries h,
  )
