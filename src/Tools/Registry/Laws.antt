-- ===== src/Tools/Registry/Laws.antt =====
-- localagentcli/tools/router.py: what a name stands for.
use local_agent_cli.Base.{
  Bool, Option, String, [], arith, list_eq, nat_eq, none, refl, some, string_eq, subst, sym, true,
  ◌==◌, ◌≡◌,
}
use local_agent_cli.Base.Result.{ok}
use local_agent_cli.Base.Dict.{Dict, insert, lookup, lookup-insert}
use local_agent_cli.Tools.Registry.{
  Registered, ToolRouter, get_registered, get_tool, register, register_builtin,
  register_dynamic_tool,
}

module _ {A : Type 0} where
  -- What is done to a router.
  pub data Update (r : ToolRouter A) : ToolRouter A → Type 0 where
    builtin : (entry : Registered A) → Update r (register_builtin entry r)
    added :
        {next : ToolRouter A} (spec : Registered A)
        → register_dynamic_tool spec r ≡ ok next
        → Update r next

  abbrev pub empty_router : ToolRouter A
  empty_router = record { builtins = record { tools = [] }; dynamic = [] }

  pub data Routed : ToolRouter A → Type 0 where
    fresh : Routed empty_router
    updated : {r next : ToolRouter A} → Routed r → Update r next → Routed next

  abbrev is_named : String → Option (Registered A) → Bool
  is_named name none = true
  is_named name (some entry) = entry.tool.name == name

  abbrev AreNamed : Dict String (Registered A) → Type 0
  AreNamed d = (name : String) → is_named name (lookup name d) ≡ true

  insert-AreNamed :
      (entry : Registered A) (d : Dict String (Registered A))
      → AreNamed d
      → AreNamed (insert entry.tool.name entry d)
  insert-AreNamed entry d h name =
      rw (lookup-insert name entry.tool.name entry d) (ground (arith, h name))

  register_dynamic_tool-dynamic :
      (spec : Registered A) (r next : ToolRouter A)
      → register_dynamic_tool spec r ≡ ok next
      → next ≡ record r { dynamic = insert spec.tool.name spec r.dynamic }
  unfolding register_dynamic_tool
  register_dynamic_tool-dynamic spec r next h = ground arith

  Routed-AreNamed : {r : ToolRouter A} → Routed r → AreNamed r.builtins.tools × AreNamed r.dynamic
  unfolding lookup register_builtin register
  Routed-AreNamed fresh = (λ name. refl, λ name. refl)
  Routed-AreNamed (updated {r} u (builtin entry)) =
      let (a, b) = Routed-AreNamed u in (insert-AreNamed entry r.builtins.tools a, b)
  Routed-AreNamed (updated {r} {next} u (added spec h)) =
      let (a, b) = Routed-AreNamed u in
      let e = register_dynamic_tool-dynamic spec r next h in
      subst (λ n. AreNamed n.builtins.tools × AreNamed n.dynamic) (sym e)
        (a, insert-AreNamed spec r.dynamic b)

  -- In a router made by registrations, the tool found for a name has that name.
  pub get_tool-name :
      (r : ToolRouter A) (name : String) (entry : Registered A)
      → Routed r
      → get_tool name r ≡ some entry
      → entry.tool.name ≡ name
  unfolding get_tool get_registered
  get_tool-name r name entry u h = let (a, b) = Routed-AreNamed u in ground (arith, a name, b name)
