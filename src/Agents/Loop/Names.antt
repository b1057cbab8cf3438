-- ===== src/Agents/Loop/Names.antt =====
-- localagentcli/agents/loop.py: what a call's name finds.
use local_agent_cli.Base.{
  List, Option-cases, String, [], arith, inl, inr, list_eq, nat_eq, some, string_eq, ◌++◌, ◌∷◌, ◌≡◌,
}
use local_agent_cli.Base.Text.{Text, codes}
use local_agent_cli.Base.Result.{ok}
use local_agent_cli.Base.Json.{
  Json, arr, bool, cons, end, field, nil, null, num, obj, other, str, truthy,
}
use local_agent_cli.Base.Dict.{keys}
use local_agent_cli.Tools.Registry.{Registered, ToolRouter}
use local_agent_cli.Tools.Registry.Laws.{Routed, get_tool-name}
use local_agent_cli.Agents.Loop.Base.{get_tool_text, key_of, name_or_unknown, tool_of}

codes-key_of :
    (t : Text) (names : List String) (key : String) → key_of t names ≡ some key → codes key ≡ t
unfolding key_of
codes-key_of t [] key h = absurd (ground arith)
codes-key_of t (k ∷ names) key h = ground (arith, codes-key_of t names key)

module _ {A : Type 0} (r : ToolRouter A) where
  get_tool_text-name :
      (t : Text) (entry : Registered A)
      → Routed r
      → get_tool_text t r ≡ some entry
      → codes entry.tool.name ≡ t
  unfolding get_tool_text
  get_tool_text-name t entry routed h =
      elim (Option-cases (key_of t (keys r.builtins.tools ++ keys r.dynamic))) [
        | inr (key, q) ↦ ground (
          arith,
          q,
          codes-key_of t (keys r.builtins.tools ++ keys r.dynamic) key q,
          get_tool-name r key entry routed,
        )
        | inl q ↦ absurd (ground (arith, q))
      ]

  -- The name that a call gives is the name of the tool that it finds.
  pub tool_of-name :
      (name : Json) (entry : Registered A)
      → Routed r
      → tool_of name r ≡ ok (some entry)
      → str (codes entry.tool.name) ≡ name_or_unknown name
  unfolding tool_of name_or_unknown truthy
  tool_of-name (str t) entry routed h = ground (arith, get_tool_text-name t entry routed)
  tool_of-name null entry routed h = absurd (ground arith)
  tool_of-name (bool b) entry routed h = absurd (ground arith)
  tool_of-name (num n) entry routed h = absurd (ground arith)
  tool_of-name (other t) entry routed h = absurd (ground arith)
  tool_of-name (arr nil) entry routed h = absurd (ground arith)
  tool_of-name (arr (cons j js)) entry routed h = absurd (ground arith)
  tool_of-name (obj end) entry routed h = absurd (ground arith)
  tool_of-name (obj (field k v fields)) entry routed h = absurd (ground arith)
