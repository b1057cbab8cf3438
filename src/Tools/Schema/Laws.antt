-- ===== src/Tools/Schema/Laws.antt =====
-- localagentcli/tools/schema.py: which schemas have no issue.
use local_agent_cli.Base.{
  List, Option, String, [], arith, list_eq, nat_eq, none, refl, some, string_eq, true, ℕ, ◌++◌, ◌+◌,
  ◌↔◌, ◌∷◌, ◌≡◌,
}
use local_agent_cli.Base.Text.{Text}
use local_agent_cli.Base.Json.{Fields, Items, Json, arr, cons, end, field, get, nil, null, obj, str}
use local_agent_cli.Tools.Schema.{
  entries_issues, entry_issues, has_key, is_object_type, is_type_name, issues_of, properties_issues,
  property_issues, required_issues, validate_function_parameters_schema,
}

-- Every property is an object with a type, which is a text that is not blank.
pub data HasTypes : Fields → Type 0 where
  no_property : HasTypes end
  typed :
      {k : String} {property rest : Fields}
      → is_type_name (get "type" property) ≡ true
      → HasTypes rest
      → HasTypes (field k (obj property) rest)

-- Every entry is a text that names a property.
pub data AreKeys (properties : Fields) : Items → Type 0 where
  no_name : AreKeys properties nil
  named :
      {name : Text} {rest : Items}
      → has_key name properties ≡ true
      → AreKeys properties rest
      → AreKeys properties (cons (str name) rest)

pub data IsRequired (properties : Fields) : Option Json → Type 0 where
  absent : IsRequired properties none
  nothing : IsRequired properties (some null)
  listed : {names : Items} → AreKeys properties names → IsRequired properties (some (arr names))

-- What the properties of a schema may be: absent ones are none.
pub data AreProperties : Option Json → Fields → Type 0 where
  missing : AreProperties none end
  given :
      {properties : Fields} → HasTypes properties → AreProperties (some (obj properties)) properties

pub data IsFunctionSchema : Json → Type 0 where
  function :
      {schema properties : Fields}
      → is_object_type (get "type" schema) ≡ true
      → AreProperties (get "properties" schema) properties
      → IsRequired properties (get "required" schema)
      → IsFunctionSchema (obj schema)

append-nil_left {ℓ} : {A : Type ℓ} (xs ys : List A) → xs ++ ys ≡ [] → (xs ≡ []) × (ys ≡ [])
append-nil_left [] ys h = (refl, h)
append-nil_left (x ∷ xs) ys h = cc

properties_issues_sound :
    (properties : Fields) → properties_issues properties ≡ [] → HasTypes properties
unfolding properties_issues property_issues
properties_issues_sound end h = no_property
properties_issues_sound (field k (obj property) rest) h =
    let (a, b) = append-nil_left (property_issues k (obj property)) (properties_issues rest) h in
    typed (ground (arith, a)) (properties_issues_sound rest b)
properties_issues_sound (field k null rest) h = cc
properties_issues_sound (field k (Json.bool b) rest) h = cc
properties_issues_sound (field k (Json.num n) rest) h = cc
properties_issues_sound (field k (Json.other t) rest) h = cc
properties_issues_sound (field k (str t) rest) h = cc
properties_issues_sound (field k (arr items) rest) h = cc

properties_issues_complete :
    {properties : Fields} → HasTypes properties → properties_issues properties ≡ []
unfolding properties_issues property_issues
properties_issues_complete no_property = refl
properties_issues_complete (typed a h) = ground (arith, a, properties_issues_complete h)

entries_issues_sound :
    (properties : Fields) (index : ℕ) (names : Items)
    → entries_issues properties index names ≡ []
    → AreKeys properties names
unfolding entries_issues entry_issues
entries_issues_sound properties index nil h = no_name
entries_issues_sound properties index (cons (str name) rest) h =
    let (a, b) =
      append-nil_left (entry_issues properties index (str name))
        (entries_issues properties (index + 1) rest) h in
    named (ground (arith, a)) (entries_issues_sound properties (index + 1) rest b)
entries_issues_sound properties index (cons null rest) h = cc
entries_issues_sound properties index (cons (Json.bool b) rest) h = cc
entries_issues_sound properties index (cons (Json.num n) rest) h = cc
entries_issues_sound properties index (cons (Json.other t) rest) h = cc
entries_issues_sound properties index (cons (arr items) rest) h = cc
entries_issues_sound properties index (cons (obj fields) rest) h = cc

entries_issues_complete :
    {properties : Fields} {names : Items} (index : ℕ)
    → AreKeys properties names
    → entries_issues properties index names ≡ []
unfolding entries_issues entry_issues
entries_issues_complete index no_name = refl
entries_issues_complete index (named a h) = ground (arith, a, entries_issues_complete (index + 1) h)

required_issues_sound :
    (properties : Fields) (required : Option Json)
    → required_issues properties required ≡ []
    → IsRequired properties required
required_issues_sound properties none h = absent
required_issues_sound properties (some null) h = nothing
required_issues_sound properties (some (arr names)) h =
    listed (entries_issues_sound properties 0 names h)
required_issues_sound properties (some (Json.bool b)) h = cc
required_issues_sound properties (some (Json.num n)) h = cc
required_issues_sound properties (some (Json.other t)) h = cc
required_issues_sound properties (some (str t)) h = cc
required_issues_sound properties (some (obj fields)) h = cc

required_issues_complete :
    {properties : Fields} {required : Option Json}
    → IsRequired properties required
    → required_issues properties required ≡ []
required_issues_complete absent = refl
required_issues_complete nothing = refl
required_issues_complete (listed h) = entries_issues_complete 0 h

issues_of_sound :
    (schema : Fields) (properties : Option Json)
    → issues_of schema properties ≡ []
    → (fields : Fields) × AreProperties properties fields
      × IsRequired fields (get "required" schema)
issues_of_sound schema none h = (end, missing, required_issues_sound end _ h)
issues_of_sound schema (some (obj properties)) h =
    let (a, b) =
      append-nil_left (properties_issues properties)
        (required_issues properties (get "required" schema)) h in
    (properties, given (properties_issues_sound properties a), required_issues_sound properties _ b)
issues_of_sound schema (some null) h = cc
issues_of_sound schema (some (Json.bool b)) h = cc
issues_of_sound schema (some (Json.num n)) h = cc
issues_of_sound schema (some (Json.other t)) h = cc
issues_of_sound schema (some (str t)) h = cc
issues_of_sound schema (some (arr items)) h = cc

issues_of_complete :
    (schema : Fields) {fields : Fields} {properties : Option Json}
    → AreProperties properties fields
    → IsRequired fields (get "required" schema)
    → issues_of schema properties ≡ []
issues_of_complete schema missing r = required_issues_complete r
issues_of_complete schema (given h) r =
    ground (arith, properties_issues_complete h, required_issues_complete r)

sound : (schema : Json) → validate_function_parameters_schema schema ≡ [] → IsFunctionSchema schema
unfolding validate_function_parameters_schema
sound (obj schema) h =
    let (a, b) = append-nil_left _ (issues_of schema (get "properties" schema)) h in
    let (fields, p, r) = issues_of_sound schema (get "properties" schema) b in
    function (ground (arith, a)) p r
sound null h = cc
sound (Json.bool b) h = cc
sound (Json.num n) h = cc
sound (Json.other t) h = cc
sound (str t) h = cc
sound (arr items) h = cc

complete :
    {schema : Json} → IsFunctionSchema schema → validate_function_parameters_schema schema ≡ []
unfolding validate_function_parameters_schema
complete (function {schema} a p r) = rw (a, issues_of_complete schema p r) refl

-- A schema has no issue exactly if it is an object of type "object" whose properties, if there are
-- any, are an object of objects with a type that is no blank text, and whose required entries, if
-- there are any, are texts that name properties.
pub validate_function_parameters_schema-IsFunctionSchema :
    (schema : Json) → (validate_function_parameters_schema schema ≡ []) ↔ IsFunctionSchema schema
validate_function_parameters_schema-IsFunctionSchema schema = (sound schema, complete)
