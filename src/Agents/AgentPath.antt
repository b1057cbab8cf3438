-- ===== src/Agents/AgentPath.antt =====
-- localagentcli/agents/agent_path.py: validated absolute paths of agents.
pub mod Segments
pub mod Laws
use local_agent_cli.Base.{
  Bool, List, [], all, contains, if◌then◌else◌, leb, list_eq, nat_eq, not, ℕ, ◌&&◌, ◌++◌, ◌==◌,
  ◌||◌, ◌∷◌,
}
use local_agent_cli.Base.Text.{Text, codes, ends_with, split, starts_with}
use local_agent_cli.Base.Result.{Error, Result, err, ok, require, value_error, ◌>>=◌, ◌>>◌}

pub record AgentPath : Type 0 where
  pub value : Text

-- `AgentPath.ROOT` and `AgentPath.ROOT_SEGMENT`
abbrev pub root_text : Text
root_text = codes "/root"

abbrev pub root_segment : Text
root_segment = codes "root"

unfoldable pub is_valid_agent_name_char : ℕ → Bool
is_valid_agent_name_char ch = leb b'a' ch && leb ch b'z' || leb b'0' ch && leb ch b'9' || ch == b'_'

unfoldable pub validate_agent_name : Text → Result (Unit {0})
unfolding is_valid_agent_name_char codes
validate_agent_name agent_name =
    require (not (agent_name == [])) (value_error (codes "agent_name must not be empty"))
    >> require (not (agent_name == root_segment))
        (value_error (codes "agent_name `root` is reserved"))
    >> require (not (agent_name == codes "." || agent_name == codes ".."))
        (value_error (codes "agent_name `" ++ (agent_name ++ codes "` is reserved")))
    >> require (not (contains agent_name b'/'))
        (value_error (codes "agent_name must not contain `/`"))
    >> require (all is_valid_agent_name_char agent_name)
        (value_error (codes "agent_name must use only lowercase letters, digits, and underscores"))

-- `for segment in segments: validate_agent_name(segment)`
unfoldable pub validate_segments : List Text → Result (Unit {0})
validate_segments [] = ok tt
validate_segments (segment ∷ rest) = validate_agent_name segment >> validate_segments rest

abbrev pub not_rooted : Error
not_rooted = value_error (codes "absolute agent paths must start with `/root`")

-- `path[1:]` and what is tested on its segments; `split` never returns an empty list.
unfoldable pub validate_stripped : Text → List Text → Result (Unit {0})
validate_stripped stripped [] = err not_rooted
validate_stripped stripped (root ∷ rest) =
    require (root == root_segment) not_rooted
    >> require (not (ends_with stripped (b'/' ∷ [])))
        (value_error (codes "absolute agent path must not end with `/`"))
    >> validate_segments rest

unfoldable pub validate_absolute_path : Text → Result (Unit {0})
validate_absolute_path [] = err not_rooted
validate_absolute_path (c ∷ stripped) =
    require (c == b'/') not_rooted >> validate_stripped stripped (split b'/' stripped)

unfoldable pub validate_relative_reference : Text → Result (Unit {0})
validate_relative_reference reference =
    require (not (ends_with reference (b'/' ∷ [])))
      (value_error (codes "relative agent path must not end with `/`"))
    >> validate_segments (split b'/' reference)

-- `AgentPath(value)`: `__post_init__` validates.
unfoldable pub from_string : Text → Result AgentPath
from_string path = validate_absolute_path path >> ok (record { value = path })

abbrev pub root : AgentPath
root = record { value = root_text }

unfoldable pub is_root : AgentPath → Bool
is_root path = path.value == root_text

-- `path.rsplit("/", maxsplit=1)[-1]`
abbrev pub last_segment : List Text → Text
last_segment [] = []
last_segment (s ∷ []) = s
last_segment (s ∷ t ∷ rest) = last_segment (t ∷ rest)

unfoldable pub name : AgentPath → Text
name path =
    if is_root path
    then root_segment
    else (let segment = last_segment (split b'/' path.value) in
        if segment == [] then root_segment else segment)

unfoldable pub join_name : AgentPath → Text → Result AgentPath
join_name path agent_name =
    validate_agent_name agent_name >> from_string (path.value ++ b'/' ∷ agent_name)

unfoldable pub resolve : AgentPath → Text → Result AgentPath
resolve path reference =
    if reference == []
    then err (value_error (codes "agent path must not be empty"))
    else if reference == root_text
    then ok root
    else if starts_with reference (b'/' ∷ [])
    then from_string reference
    else validate_relative_reference reference >> from_string (path.value ++ b'/' ∷ reference)

-- The argument `current_agent_path: AgentPath | str | None`.
pub data Caller : Type 0 where
  nobody : Caller
  at : AgentPath → Caller
  named : Text → Caller

unfoldable pub current_path : Caller → Result AgentPath
current_path nobody = ok root
current_path (at path) = ok path
current_path (named t) = from_string t

unfoldable pub resolve_agent_reference : Caller → Text → Bool → Result AgentPath
resolve_agent_reference caller reference allow_root = do
  current ← current_path caller
  resolved ← resolve current reference
  require (not (is_root resolved && not allow_root))
      (value_error (codes "root is not a spawned agent"))
  ok resolved
