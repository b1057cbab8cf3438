-- ===== src/Features.antt =====
-- localagentcli/features/registry.py: which features are on, by their defaults and the configuration.
-- A feature is its string value, and `Feature` the five that are known.
use local_agent_cli.Base.{
  Bool, List, Option, Option-cases, String, [], any, arith, contains, false, if◌then◌else◌, inl,
  inr, keep, none, not, refl, some, string_eq, true, ◌&&◌, ◌==◌, ◌||◌, ◌∷◌, ◌≡◌,
}
use local_agent_cli.Base.Text.{Text, codes}
use local_agent_cli.Base.Dict.{Dict, insert, lookup, lookup-insert}

pub data FeatureStage : Type 0 where
  under_development experimental stable deprecated removed : FeatureStage

unfoldable pub is_removed : FeatureStage → Bool
is_removed removed = true
is_removed _ = false

pub record FeatureSpec : Type 0 where
  pub id : String
  pub stage : FeatureStage
  pub default_enabled : Bool
  pub description : Text

unfoldable pub features : List FeatureSpec
unfolding codes
features =
    record {
      id = "dummy_stable";
      stage = stable;
      default_enabled = true;
      description = codes "A stable feature used for tests.";
    }
    ∷ record {
      id = "dummy_experimental";
      stage = experimental;
      default_enabled = false;
      description = codes "An experimental feature used for tests.";
    }
    ∷ record {
      id = "tool_mcp_oauth";
      stage = under_development;
      default_enabled = false;
      description = codes "Support for MCP OAuth workflows.";
    }
    ∷ record {
      id = "mcp_tool_inventory_refresh";
      stage = under_development;
      default_enabled = false;
      description = codes "Refresh MCP-backed tool inventory between agent turns.";
    }
    ∷ record {
      id = "multi_agent_path_routing";
      stage = under_development;
      default_enabled = false;
      description = codes "Enable path-based multi-agent routing tool surfaces.";
    }
    ∷ []

-- The set of the enabled keys is a list: `add` and `discard`.
abbrev pub set_add : String → List String → List String
set_add k enabled = if contains enabled k then enabled else k ∷ enabled

abbrev pub discard : String → List String → List String
discard k enabled = keep (λ j. not (k == j)) enabled

pub record FeatureRegistry : Type 0 where
  pub specs : Dict String FeatureSpec
  pub enabled : List String

-- The loop over the specs.
unfoldable pub add_specs : List FeatureSpec → FeatureRegistry → FeatureRegistry
add_specs [] r = r
add_specs (spec ∷ rest) r = add_specs rest (record {
  specs = insert spec.id spec r.specs;
  enabled = if spec.default_enabled then set_add spec.id r.enabled else r.enabled;
})

-- One entry of the configuration, for the spec of its key.
unfoldable pub toggled : String → Bool → Option FeatureSpec → List String → List String
toggled k is_on none enabled = enabled
toggled k is_on (some spec) enabled =
    if is_removed spec.stage
    then discard k enabled
    else if is_on
    then set_add k enabled
    else discard k enabled

unfoldable pub apply_toggles :
    Dict String FeatureSpec → Dict String Bool → List String → List String
apply_toggles specs [] enabled = enabled
apply_toggles specs ((k, is_on) ∷ rest) enabled =
    apply_toggles specs rest (toggled k is_on (lookup k specs) enabled)

unfoldable pub feature_registry : Dict String Bool → Option (List FeatureSpec) → FeatureRegistry
feature_registry config_toggles custom_specs =
    let known : List FeatureSpec = elim custom_specs [ none ↦ features | some specs ↦ specs ] in
    let defaults = add_specs known (record { specs = []; enabled = [] }) in
    record defaults { enabled = apply_toggles defaults.specs config_toggles defaults.enabled }

unfoldable pub is_enabled : String → FeatureRegistry → Bool
is_enabled k r = contains r.enabled k

contains-set_add :
    (k j : String) (enabled : List String)
    → contains (set_add k enabled) j ≡ (j == k || contains enabled j)
contains-set_add k j enabled = ground arith

contains-discard :
    (k j : String) (enabled : List String)
    → contains (discard k enabled) j ≡ (not (k == j) && contains enabled j)
contains-discard k j [] = ground arith
contains-discard k j (i ∷ enabled) = ground (arith, contains-discard k j enabled)

toggled_unknown :
    (k j : String) (is_on : Bool) (specs : Dict String FeatureSpec) (enabled : List String)
    → lookup j specs ≡ none
    → contains enabled j ≡ false
    → contains (toggled k is_on (lookup k specs) enabled) j ≡ false
unfolding toggled
toggled_unknown k j is_on specs enabled h c = elim (Option-cases (lookup k specs)) [
  | inl unknown ↦ ground (arith, unknown)
  | inr (spec, known) ↦
      ground (arith, known, contains-set_add k j enabled, contains-discard k j enabled)
]

apply_toggles_unknown :
    (j : String) (specs : Dict String FeatureSpec) (toggles : Dict String Bool)
    (enabled : List String)
    → lookup j specs ≡ none
    → contains enabled j ≡ false
    → contains (apply_toggles specs toggles enabled) j ≡ false
unfolding apply_toggles
apply_toggles_unknown j specs [] enabled h c = c
apply_toggles_unknown j specs ((k, is_on) ∷ rest) enabled h c =
    apply_toggles_unknown j specs rest (toggled k is_on (lookup k specs) enabled) h
      (toggled_unknown k j is_on specs enabled h c)

-- What no spec names is neither a key nor enabled.
add_specs_unknown :
    (j : String) (known : List FeatureSpec) (r : FeatureRegistry)
    → any (λ spec. j == spec.id) known ≡ false
    → lookup j r.specs ≡ none
    → contains r.enabled j ≡ false
    → (lookup j (add_specs known r).specs ≡ none) × (contains (add_specs known r).enabled j ≡ false)
unfolding add_specs
add_specs_unknown j [] r a h c = (h, c)
add_specs_unknown j (spec ∷ rest) r a h c =
    add_specs_unknown j rest _ (ground (arith, a))
      (ground (arith, a, lookup-insert j spec.id spec r.specs))
      (ground (arith, a, contains-set_add spec.id j r.enabled))

-- A key that no spec names is not enabled, whatever the configuration says of it.
pub is_enabled-feature_registry :
    (j : String) (config_toggles : Dict String Bool) (specs : List FeatureSpec)
    → any (λ spec. j == spec.id) specs ≡ false
    → is_enabled j (feature_registry config_toggles (some specs)) ≡ false
unfolding is_enabled feature_registry lookup
is_enabled-feature_registry j config_toggles specs a =
    let (h, c) = add_specs_unknown j specs (record { specs = []; enabled = [] }) a refl refl in
    apply_toggles_unknown j _ config_toggles _ h c
