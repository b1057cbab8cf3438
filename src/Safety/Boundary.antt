-- ===== src/Safety/Boundary.antt =====
-- localagentcli/safety/boundary.py: access to files against a fixed workspace root.
pub mod Laws
use local_agent_cli.Base.{
  Bool, Eq, List, Option, [], contains, false, if◌then◌else◌, list_eq, nat_eq, none, not, some,
  string_eq, suc, true, zero, ℕ, ◌&&◌, ◌++◌, ◌==◌, ◌||◌, ◌∷◌,
}
use local_agent_cli.Base.Text.{Text, codes, has_substring, split, starts_with, strip}
use local_agent_cli.Base.Result.{Result, boundary_error, err, ok, require, ◌>>◌}
use local_agent_cli.Platform.{Platform}

pub record WorkspaceBoundary (P : Platform) : Type 0 where
  pub root : P.FilePath

-- What `shlex` and `os` give: `shlex.split(command, posix=...)`, where `none` is its `ValueError`,
-- and whether `os.name == "nt"`.
pub record Shell : Type 0 where
  pub split : Bool → Text → Option (List Text)
  pub is_windows : Bool

-- The argument `path: str | Path`.
pub data PathArgument (P : Platform) : Type 0 where
  text : Text → PathArgument P
  path : P.FilePath → PathArgument P

module _ (P : Platform) where
  -- `Path(path)`
  unfoldable pub raw : PathArgument P → P.FilePath
  raw (text t) = P.from_str t
  raw (path p) = p

  -- `f"{path}"`
  unfoldable pub shown : PathArgument P → Text
  shown (text t) = t
  shown (path p) = P.to_str p

module _ (P : Platform) ⦃e : Eq P.FilePath⦄ where
  unfoldable pub workspace_boundary : P.Disk → P.FilePath → WorkspaceBoundary P
  workspace_boundary disk workspace_root = record {
    root = P.resolve disk (P.expanduser workspace_root);
  }

  unfoldable pub candidate_of : WorkspaceBoundary P → PathArgument P → P.FilePath
  unfolding raw
  candidate_of b given = let p = raw P given in if P.is_absolute p then p else P.join_path b.root p

  -- The loop of `_existing_components`, on fuel; each round goes to the parent.
  unfoldable pub components_loop : P.Disk → P.FilePath → ℕ → P.FilePath → List P.FilePath
  components_loop disk root zero current = []
  components_loop disk root (suc fuel) current =
      let rest = components_loop disk root fuel (P.parent current) in
      let above = if current == root || P.parent current == current then [] else rest in
      if P.exists disk current || P.is_symlink disk current then current ∷ above else above

  unfoldable pub existing_components : WorkspaceBoundary P → P.Disk → P.FilePath → List P.FilePath
  unfolding components_loop
  existing_components b disk candidate =
      let current = P.expanduser candidate in
      components_loop disk b.root (suc (P.part_count current)) current

  unfoldable pub validate_symlink : WorkspaceBoundary P → P.Disk → P.FilePath → Result (Unit {0})
  validate_symlink b disk p =
      let target = P.resolve disk p in
      if not (P.is_symlink disk p)
      then ok tt
      else require (P.is_relative_to target b.root) (
          boundary_error (
            codes "Symlink '"
            ++ (P.to_str p
                ++ (codes "' points to '"
                    ++ (P.to_str target
                        ++ (codes "' outside the workspace root '"
                            ++ (P.to_str b.root ++ codes "'")))))))

  unfoldable pub validate_symlinks :
      WorkspaceBoundary P → P.Disk → List P.FilePath → Result (Unit {0})
  unfolding validate_symlink
  validate_symlinks b disk [] = ok tt
  validate_symlinks b disk (p ∷ rest) = validate_symlink b disk p >> validate_symlinks b disk rest

  unfoldable pub validate_path : WorkspaceBoundary P → P.Disk → PathArgument P → Result P.FilePath
  unfolding candidate_of existing_components validate_symlinks shown
  validate_path b disk given = do
    let candidate = candidate_of b given
    let resolved = P.resolve disk (P.expanduser candidate)
    require (P.is_relative_to resolved b.root) (
        boundary_error (
          codes "Path '"
          ++ (shown P given
              ++ (codes "' resolves to '"
                  ++ (P.to_str resolved
                      ++ (codes "' which is outside the workspace root '"
                          ++ (P.to_str b.root ++ codes "'")))))))
    validate_symlinks b disk (existing_components b disk candidate)
    ok resolved

  -- `path.resolve().relative_to(root).as_posix()`; `none` is a `ValueError`.
  unfoldable pub relative_path : WorkspaceBoundary P → P.Disk → P.FilePath → Option Text
  relative_path b disk p = elim (P.relative_to (P.resolve disk p) b.root) [
    | none ↦ none
    | some relative ↦ some (P.as_posix relative)
  ]

-- `_looks_like_path`
unfoldable pub looks_like_path : Text → Bool
unfolding starts_with has_substring codes
looks_like_path token =
    if token == [] || (starts_with token (codes "-") || has_substring token (codes "://"))
    then false
    else if starts_with token (codes "~")
        || (starts_with token (codes "/")
            || (starts_with token (codes "./") || starts_with token (codes "../")))
    then true
    else contains token b'/' || contains token b'\\'

-- The inner loop of `_command_tokens`: `tokens` and the set `seen` hold the same texts.
unfoldable pub add_tokens : List Text → List Text → List Text
unfolding strip codes
add_tokens tokens [] = tokens
add_tokens tokens (token ∷ rest) =
    let normalized = strip (codes "\"'") token in
    add_tokens
      (if normalized == [] || contains tokens normalized then tokens else tokens ++ normalized ∷ [])
      rest

abbrev pub add_parsed : List Text → Option (List Text) → List Text
add_parsed tokens none = tokens
add_parsed tokens (some parsed) = add_tokens tokens parsed

unfoldable pub command_tokens : Shell → Text → List Text
unfolding add_tokens
command_tokens shell command =
    let posix = add_parsed [] (shell.split true command) in
    if shell.is_windows || contains command b'\\'
    then add_parsed posix (shell.split false command)
    else posix

module _ (P : Platform) ⦃e : Eq P.FilePath⦄ where
  abbrev pub is_outside : WorkspaceBoundary P → P.Disk → Text → Bool
  is_outside b disk token = elim (validate_path P b disk (text token)) [
    | ok _ ↦ false
    | err _ ↦ true
  ]

  abbrev pub warning_for : Text → Text
  warning_for token = codes "Command references a path outside the workspace: " ++ token

  unfoldable pub inspect_tokens : WorkspaceBoundary P → P.Disk → List Text → List Text → List Text
  unfolding looks_like_path
  inspect_tokens b disk warnings [] = warnings
  inspect_tokens b disk warnings (token ∷ rest) =
      inspect_tokens b disk
        (if looks_like_path token
            && (is_outside b disk token && not (contains warnings (warning_for token)))
          then warnings ++ warning_for token ∷ []
          else warnings)
        rest

  unfoldable pub inspect_command : WorkspaceBoundary P → P.Disk → Shell → Text → List Text
  unfolding inspect_tokens command_tokens
  inspect_command b disk shell command = inspect_tokens b disk [] (command_tokens shell command)
