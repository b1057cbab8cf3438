-- ===== src/Safety/Rollback/Entry.antt =====
-- localagentcli/safety/rollback.py: one entry of the log, and its JSON form.
use local_agent_cli.Base.{
  List, Option, String, [], if◌then◌else◌, list_eq, nat_eq, none, some, string_eq, ℕ, ◌∷◌, ◌≡◌,
}
use local_agent_cli.Base.Text.{Text, codes}
use local_agent_cli.Base.Result.{Result, err, key_error, ok, type_error, ◌>>=◌}
use local_agent_cli.Base.Json.{
  Fields, Items, Json, arr, cons, end, field, get, nil, null, num, obj, str, truthy,
}

pub record RollbackEntry : Type 0 where
  pub index : ℕ
  pub timestamp : Text
  pub tool : Text
  pub file_path : Text
  pub backup_path : Option Text
  pub action : Text
  pub summary : Text

-- Python's `json`, `int` and `str` on what a log may hold.
pub record Codec : Type 0 where
  pub dumps : Json → Text
  pub loads : Text → Result Json
  pub int_of : Json → Result ℕ
  pub str_of : Json → Text

-- `json.loads(json.dumps(document))` is the document, and `int` and `str` keep a number and a text.
pub record RoundTrips (c : Codec) (document : Json) : Type 0 where
  pub loads-dumps : c.loads (c.dumps document) ≡ ok document
  pub int_of_num : (n : ℕ) → c.int_of (num n) ≡ ok n
  pub str_of_str : (t : Text) → c.str_of (str t) ≡ t

abbrev pub optional_text : Option Text → Json
optional_text none = null
optional_text (some t) = str t

unfoldable pub to_dict : RollbackEntry → Fields
to_dict entry = field "index" (num entry.index) (
    field "timestamp" (str entry.timestamp) (
      field "tool" (str entry.tool) (
        field "file_path" (str entry.file_path) (
          field "backup_path" (optional_text entry.backup_path)
            (field "action" (str entry.action) (field "summary" (str entry.summary) end))))))

-- `data[key]`
unfoldable pub item : String → Fields → Result Json
unfolding get
item key fields = elim (get key fields) [ none ↦ err (key_error (codes key)) | some v ↦ ok v ]

-- `str(data["backup_path"]) if data.get("backup_path") else None`
unfoldable pub backup_path_of : Codec → Option Json → Option Text
unfolding truthy
backup_path_of c none = none
backup_path_of c (some j) = if truthy j then some (c.str_of j) else none

unfoldable pub from_dict : Codec → Fields → Result RollbackEntry
unfolding item backup_path_of
from_dict c fields = do
  index ← item "index" fields
  index' ← c.int_of index
  timestamp ← item "timestamp" fields
  tool ← item "tool" fields
  file_path ← item "file_path" fields
  action ← item "action" fields
  summary ← item "summary" fields
  ok (record {
    index = index';
    timestamp = c.str_of timestamp;
    tool = c.str_of tool;
    file_path = c.str_of file_path;
    backup_path = backup_path_of c (get "backup_path" fields);
    action = c.str_of action;
    summary = c.str_of summary;
  })

unfoldable pub entry_items : List RollbackEntry → Items
unfolding to_dict
entry_items [] = nil
entry_items (entry ∷ rest) = cons (obj (to_dict entry)) (entry_items rest)

-- `[RollbackEntry.from_dict(entry) for entry in entries if isinstance(entry, dict)]`
unfoldable pub load_items : Codec → Items → Result (List RollbackEntry)
unfolding from_dict
load_items c nil = ok []
load_items c (cons (obj fields) rest) = do
  entry ← from_dict c fields
  more ← load_items c rest
  ok (entry ∷ more)
load_items c (cons _ rest) = load_items c rest

-- The loop over `data.get("entries", [])`: a text or an object yields no dict.
abbrev pub load_entries : Codec → Option Json → Result (List RollbackEntry)
load_entries c none = ok []
load_entries c (some (arr items)) = load_items c items
load_entries c (some (str t)) = ok []
load_entries c (some (obj fields)) = ok []
load_entries c (some _) = err (type_error (codes "object is not iterable"))

abbrev pub load_payload : Codec → Json → Result (List RollbackEntry)
load_payload c (obj fields) = load_entries c (get "entries" fields)
load_payload c _ = err (type_error (codes "object has no attribute 'get'"))
