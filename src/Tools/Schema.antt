-- ===== src/Tools/Schema.antt =====
-- localagentcli/tools/schema.py: the check of a tool's parameter schema.
pub mod Laws
use local_agent_cli.Base.{
  Bool, List, Option, String, [], false, if◌then◌else◌, list_eq, nat_eq, none, not, some, string_eq,
  ℕ, ◌++◌, ◌+◌, ◌==◌, ◌||◌, ◌∷◌,
}
use local_agent_cli.Base.Text.{Text, codes, strip, whitespace}
use local_agent_cli.Base.Decimal.{decimal}
use local_agent_cli.Base.Json.{Fields, Items, Json, arr, cons, end, field, get, nil, null, obj, str}

-- `isinstance(prop_type, str) and prop_type.strip()`
abbrev pub is_type_name : Option Json → Bool
is_type_name (some (str t)) = not (strip whitespace t == [])
is_type_name _ = false

-- One property: its issues.
unfoldable pub property_issues : String → Json → List Text
property_issues prop_name (obj prop_schema) =
    if is_type_name (get "type" prop_schema)
    then []
    else (codes "property \""
        ++ (codes prop_name ++ codes "\" must include a non-empty string \"type\""))
      ∷ []
property_issues prop_name _ =
    (codes "property \"" ++ (codes prop_name ++ codes "\" schema must be an object")) ∷ []

unfoldable pub properties_issues : Fields → List Text
properties_issues end = []
properties_issues (field prop_name prop_schema rest) =
    property_issues prop_name prop_schema ++ properties_issues rest

-- `name in properties`, for a text.
unfoldable pub has_key : Text → Fields → Bool
has_key name end = false
has_key name (field k v rest) = name == codes k || has_key name rest

unfoldable pub entry_issues : Fields → ℕ → Json → List Text
entry_issues properties index (str name) =
    if has_key name properties
    then []
    else (codes "\"required\" lists unknown property \"" ++ (name ++ codes "\"")) ∷ []
entry_issues properties index _ =
    (codes "\"required\" entry " ++ (decimal index ++ codes " must be a string")) ∷ []

unfoldable pub entries_issues : Fields → ℕ → Items → List Text
entries_issues properties index nil = []
entries_issues properties index (cons name rest) =
    entry_issues properties index name ++ entries_issues properties (index + 1) rest

abbrev pub required_issues : Fields → Option Json → List Text
required_issues properties none = []
required_issues properties (some null) = []
required_issues properties (some (arr names)) = entries_issues properties 0 names
required_issues properties (some _) = codes "\"required\" must be a list of strings" ∷ []

-- What follows the check of the type: `properties` is absent, null, or something else.
abbrev pub issues_of : Fields → Option Json → List Text
issues_of schema none = required_issues end (get "required" schema)
issues_of schema (some null) = codes "\"properties\" must not be null" ∷ []
issues_of schema (some (obj properties)) =
    properties_issues properties ++ required_issues properties (get "required" schema)
issues_of schema (some _) =
    codes "\"properties\" must be an object mapping names to property schemas" ∷ []

abbrev pub is_object_type : Option Json → Bool
is_object_type (some (str t)) = t == codes "object"
is_object_type _ = false

unfoldable pub validate_function_parameters_schema : Json → List Text
validate_function_parameters_schema (obj schema) =
    (if is_object_type (get "type" schema)
      then []
      else codes "top-level \"type\" must be the string \"object\"" ∷ [])
    ++ issues_of schema (get "properties" schema)
validate_function_parameters_schema _ = codes "parameters schema must be a JSON object (dict)" ∷ []
