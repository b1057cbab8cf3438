-- ===== src/Safety/Policy.antt =====
-- localagentcli/safety/policy.py: the runtime sandbox policy derived from a posture.
pub mod Laws
use local_agent_cli.Base.{
  Bool, Eq, List, Option, [], any, contains, false, if◌then◌else◌, none, some, string_eq, true,
  ◌==◌, ◌||◌, ◌∷◌,
}
use local_agent_cli.Platform.{Platform}
use local_agent_cli.Safety.Posture.{SandboxPosture, danger_full_access, read_only, workspace_write}

pub record RuntimeSandboxPolicy (P : Platform) : Type 0 where
  pub posture : SandboxPosture
  pub writable_roots : List P.FilePath
  pub network_access : Bool

-- `network_access_override if network_access_override is not None else default`
abbrev pub override_or : Option Bool → Bool → Bool
override_or none default = default
override_or (some given) default = given

module _ (P : Platform) ⦃e : Eq P.FilePath⦄ where
  -- The loop of `_normalize_roots`, over what is `seen`.
  unfoldable pub normalize_loop : P.Disk → List P.FilePath → List P.FilePath → List P.FilePath
  normalize_loop disk seen [] = []
  normalize_loop disk seen (root ∷ roots) =
      let resolved = P.resolve disk (P.expanduser root) in
      let again = normalize_loop disk seen roots in
      let fresh = resolved ∷ normalize_loop disk (resolved ∷ seen) roots in
      if contains seen resolved then again else fresh

  unfoldable pub normalize_roots : P.Disk → Option (List P.FilePath) → List P.FilePath
  unfolding normalize_loop
  normalize_roots disk none = []
  normalize_roots disk (some roots) = normalize_loop disk [] roots

  unfoldable pub from_posture :
      P.Disk
      → SandboxPosture
      → P.FilePath
      → Option (List P.FilePath)
      → Option Bool
      → RuntimeSandboxPolicy P
  unfolding normalize_roots
  from_posture disk danger_full_access workspace_root writable_roots network = record {
    posture = danger_full_access;
    writable_roots = [];
    network_access = override_or network true;
  }
  from_posture disk read_only workspace_root writable_roots network = record {
    posture = read_only;
    writable_roots = [];
    network_access = override_or network false;
  }
  from_posture disk workspace_write workspace_root writable_roots network = record {
    posture = workspace_write;
    writable_roots =
        normalize_roots disk (
          some
            (P.resolve disk (P.expanduser workspace_root) ∷ normalize_roots disk writable_roots));
    network_access = override_or network false;
  }

  -- `resolved == root or root in resolved.parents`
  abbrev pub is_under : P.FilePath → P.FilePath → Bool
  is_under resolved root = resolved == root || contains (P.parents resolved) root

  unfoldable pub can_write : SandboxPosture → P.Disk → List P.FilePath → P.FilePath → Bool
  can_write danger_full_access disk roots path = true
  can_write read_only disk roots path = false
  can_write workspace_write disk roots path =
      any (is_under (P.resolve disk (P.expanduser path))) roots

  unfoldable pub can_write_path : P.Disk → RuntimeSandboxPolicy P → P.FilePath → Bool
  unfolding can_write
  can_write_path disk policy path = can_write policy.posture disk policy.writable_roots path
