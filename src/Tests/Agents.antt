-- ===== src/Tests/Agents.antt =====
-- Runs of agent paths and of their resolution.
use local_agent_cli.Base.{list_eq, nat_eq, refl, ◌++◌, ◌∷◌, ◌≡◌}
use local_agent_cli.Base.Text.{codes, ends_with, split, starts_with}
use local_agent_cli.Base.Result.{ok, ◌>>◌}
use local_agent_cli.Agents.AgentPath.{
  AgentPath, from_string, is_valid_agent_name_char, join_name, name, resolve,
  validate_absolute_path, validate_agent_name, validate_relative_reference, validate_segments,
  validate_stripped,
}
use local_agent_cli.Agents.AgentPath.Laws.{
  IsValid, below, join_name-valid, name-join_name, resolve-relative, resolve-resolve,
}

abbrev team : AgentPath
team = record { value = codes "/root/team" }

team-IsValid : IsValid team
unfolding validate_absolute_path codes nat_eq list_eq validate_stripped split ends_with starts_with
    validate_segments validate_agent_name from_string join_name resolve validate_relative_reference
    is_valid_agent_name_char
team-IsValid = refl

join_name-valid_example :
    join_name team (codes "a_1")
    ≡ (validate_agent_name (codes "a_1") >> ok (below team (codes "a_1")))
join_name-valid_example = join_name-valid team (codes "a_1") team-IsValid

name-join_name_example : name (below team (codes "a_1")) ≡ codes "a_1"
unfolding validate_absolute_path codes nat_eq list_eq validate_stripped split ends_with starts_with
    validate_segments validate_agent_name from_string join_name resolve validate_relative_reference
    is_valid_agent_name_char
name-join_name_example =
    name-join_name team (below team (codes "a_1")) (codes "a_1") team-IsValid refl

resolve-relative_example :
    resolve team (codes "a/b")
    ≡ (validate_relative_reference (codes "a/b") >> ok (below team (codes "a/b")))
unfolding validate_absolute_path codes nat_eq list_eq validate_stripped split ends_with starts_with
    validate_segments validate_agent_name from_string join_name resolve validate_relative_reference
    is_valid_agent_name_char
resolve-relative_example = resolve-relative team (codes "a/b") team-IsValid (λ q. cc) refl

resolve-resolve_example :
    resolve team (codes "a" ++ b'/' ∷ codes "b") ≡ ok (below (below team (codes "a")) (codes "b"))
unfolding validate_absolute_path codes nat_eq list_eq validate_stripped split ends_with starts_with
    validate_segments validate_agent_name from_string join_name resolve validate_relative_reference
    is_valid_agent_name_char
resolve-resolve_example =
    resolve-resolve team (below team (codes "a")) (below (below team (codes "a")) (codes "b"))
      (codes "a") (codes "b") team-IsValid (λ q. cc) refl (λ q. cc) refl refl refl
