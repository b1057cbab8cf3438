-- ===== src/Safety/Layer/Risk.antt =====
-- localagentcli/safety/layer.py: which arguments are paths, and what counts as risky.
use local_agent_cli.Base.{
  Bool, List, Option, String, [], contains, if◌then◌else◌, list_eq, nat_eq, none, some, string_eq,
  ◌++◌, ◌==◌, ◌||◌, ◌∷◌,
}
use local_agent_cli.Base.Text.{Text, codes}
use local_agent_cli.Base.Json.{Fields, Items, Json, arr, cons, get, nil, str}
use local_agent_cli.Platform.{Platform}
use local_agent_cli.Base.Result.{Result, ok, require, runtime_error, ◌>>=◌, ◌>>◌}
use local_agent_cli.Safety.Approval.{RiskLevel, high, normal}
use local_agent_cli.Safety.Boundary.{WorkspaceBoundary}

-- `re.compile(pattern, re.IGNORECASE).search(text)` and `str(value)`.
pub record Python : Type 0 where
  pub search : Text → Text → Bool
  pub str_of : Json → Text

unfoldable pub high_risk_commands : List Text
unfolding codes
high_risk_commands =
    codes "\\brm\\b"
    ∷ codes "\\brmdir\\b"
    ∷ codes "\\bsudo\\b"
    ∷ codes "\\bsystemctl\\b"
    ∷ codes "\\bcurl\\b"
    ∷ codes "\\bwget\\b"
    ∷ codes "\\bpip\\s+install\\b"
    ∷ codes "\\bnpm\\s+install\\b"
    ∷ codes "\\bgit\\s+push\\s+--force\\b"
    ∷ codes "\\bgit\\s+reset\\s+--hard\\b"
    ∷ codes "\\bchmod\\b[^;\\n|&]*\\b777\\b"
    ∷ codes "\\bdocker\\s+(?:rm|rmi|system\\s+prune)\\b"
    ∷ codes "\\bkubectl\\s+delete\\b"
    ∷ []

unfoldable pub high_risk_file_patterns : List Text
unfolding codes
high_risk_file_patterns =
    codes "(^|/)\\.env$"
    ∷ codes "\\.pem$"
    ∷ codes "\\.key$"
    ∷ codes "credentials"
    ∷ codes "secrets?\\.(json|yaml|yml|toml)$"
    ∷ []

-- `for pattern in patterns: if pattern.search(subject): return pattern`
unfoldable pub first_match : Python → Text → List Text → Option Text
first_match py subject [] = none
first_match py subject (pattern ∷ rest) =
    if py.search pattern subject then some pattern else first_match py subject rest

-- `[str(path) for path in files if isinstance(path, str) and path]`
unfoldable pub text_items : Items → List Text
text_items nil = []
text_items (cons (str t) rest) = let more = text_items rest in if t == [] then more else t ∷ more
text_items (cons _ rest) = text_items rest

-- `isinstance(value, str) and value`
abbrev pub nonempty_text : Option Json → List Text
nonempty_text (some (str t)) = if t == [] then [] else t ∷ []
nonempty_text _ = []

abbrev pub text_files : Option Json → List Text
text_files (some (arr items)) = text_items items
text_files _ = []

unfoldable pub single_path_tools : List String
single_path_tools =
    "directory_list" ∷ "file_read" ∷ "file_search" ∷ "file_write" ∷ "git_diff" ∷ "patch_apply"
    ∷ "test_execute" ∷ []

unfoldable pub path_argument_values : String → Fields → List Text
unfolding single_path_tools
path_argument_values tool_name args =
    (if contains single_path_tools tool_name then nonempty_text (get "path" args) else [])
    ++ (if tool_name == "git_commit" then text_files (get "files" args) else [])

unfoldable pub risk_sensitive_paths : String → Fields → List Text
risk_sensitive_paths tool_name args =
    if tool_name == "shell_execute" then [] else path_argument_values tool_name args

unfoldable pub modification_targets : String → Fields → List Text
modification_targets tool_name args =
    if tool_name == "file_write" || tool_name == "patch_apply"
    then nonempty_text (get "path" args)
    else []

-- `str(args.get(key, default))`
unfoldable pub text_argument : Python → String → String → Fields → Text
text_argument py key default args = elim (get key args) [
  | none ↦ codes default
  | some j ↦ py.str_of j
]

module _ (P : Platform) where
  -- An unknown home is not caught.
  unfoldable pub normalize_display_path : WorkspaceBoundary P → P.Disk → Text → Result Text
  normalize_display_path b disk file_path =
      let given = P.expanduser (P.from_str file_path) in
      let placed = if P.is_absolute given then given else P.join_path b.root given in
      require (P.has_home (P.from_str file_path))
        (runtime_error (codes "Could not determine home directory."))
      >> ok (elim (P.relative_to (P.resolve disk placed) b.root) [
        | none ↦ P.as_posix placed
        | some relative ↦ P.as_posix relative
      ])

  -- The loop over the sensitive paths.
  unfoldable pub describe_paths :
      Python → WorkspaceBoundary P → P.Disk → List Text → Result (RiskLevel × Option Text)
  describe_paths py b disk [] = ok (normal, none)
  describe_paths py b disk (file_path ∷ rest) =
      let more = describe_paths py b disk rest in
      normalize_display_path b disk file_path >>= λ normalized.
      elim (first_match py normalized high_risk_file_patterns) [
        | none ↦ more
        | some pattern ↦ ok (high, some (codes "Path appears sensitive: " ++ normalized))
      ]

  abbrev pub risky_command : Python → String → Fields → Option Text
  risky_command py tool_name args =
      if tool_name == "shell_execute"
      then first_match py (text_argument py "command" "" args) high_risk_commands
      else none

  unfoldable pub describe_risk :
      Python → WorkspaceBoundary P → P.Disk → String → Fields → Result (RiskLevel × Option Text)
  describe_risk py b disk tool_name args = elim (risky_command py tool_name args) [
    | some pattern ↦ ok (high, some (codes "Command matches a high-risk pattern: " ++ pattern))
    | none ↦ describe_paths py b disk (risk_sensitive_paths tool_name args)
  ]

  unfoldable pub classify_risk :
      Python → WorkspaceBoundary P → P.Disk → String → Fields → Result RiskLevel
  classify_risk py b disk tool_name args =
      describe_risk py b disk tool_name args >>= λ described. ok described.0
