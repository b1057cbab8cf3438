-- ===== src/Agents/MultiAgent/Filed.antt =====
-- localagentcli/agents/multi_agent.py: the table of agents, each under its own path, and how an entry
-- is written.
use local_agent_cli.Base.{
  ==_iff, All, Bool-cases, [], ap, arith, inl, inr, length, list_eq, nat_eq, some, subst, sym, ◌+◌,
  ◌==◌, ◌∙◌, ◌∷◌, ◌≡◌, ◌≤◌,
}
use local_agent_cli.Base.Text.{Text}
use local_agent_cli.Base.Dict.{Dict, insert, lookup}
use local_agent_cli.Agents.AgentPath.Laws.{IsValid}
use local_agent_cli.Agents.MultiAgent.{ManagedAgent, Manager}

-- An agent is kept under its own path, which is valid.
abbrev pub IsFiled : Text × ManagedAgent → Type 0
IsFiled (key, agent) = (agent.agent_path.value ≡ key) × IsValid agent.agent_path

pub record IsManaged (m : Manager) : Type 0 where
  pub filed : All IsFiled m.agents
  pub bounded : length m.agents ≤ m.max_agents

pub length-insert :
    (k : Text) (a : ManagedAgent) (d : Dict Text ManagedAgent)
    → length (insert k a d) ≤ length d + 1
unfolding insert
length-insert k a [] = omega arith
length-insert k a ((j, b) ∷ d) = ground (arith, length-insert k a d)

length-insert_old :
    (k : Text) (a old : ManagedAgent) (d : Dict Text ManagedAgent)
    → lookup k d ≡ some old
    → length (insert k a d) ≡ length d
unfolding insert lookup
length-insert_old k a old [] h = cc
length-insert_old k a old ((j, b) ∷ d) h = ground (arith, length-insert_old k a old d)

pub All-insert :
    (k : Text) (a : ManagedAgent) (d : Dict Text ManagedAgent)
    → IsFiled (k, a)
    → All IsFiled d
    → All IsFiled (insert k a d)
unfolding insert
All-insert k a [] f h = (f, h)
All-insert k a ((j, b) ∷ d) f (g, h) = elim (Bool-cases (k == j)) [
  | inl same ↦ rw same (f, h)
  | inr other ↦ rw other (g, All-insert k a d f h)
]

All-lookup :
    (k : Text) (a : ManagedAgent) (d : Dict Text ManagedAgent)
    → lookup k d ≡ some a
    → All IsFiled d
    → IsFiled (k, a)
unfolding lookup
All-lookup k a [] h f = cc
All-lookup k a ((j, b) ∷ d) h (g, f) = elim (Bool-cases (k == j)) [
  | inl same ↦
      let found : b ≡ a = ground arith in
      subst (λ x. IsFiled (k, x)) found (g.0 ∙ sym ((==_iff k j).0 same), g.1)
  | inr other ↦ All-lookup k a d (ground arith) f
]

-- Replacing an agent by one of the same path.
pub insert-IsManaged :
    (m : Manager) (key : Text) (old agent : ManagedAgent)
    → lookup key m.agents ≡ some old
    → agent.agent_path ≡ old.agent_path
    → IsManaged m
    → IsManaged (record m { agents = insert key agent m.agents })
insert-IsManaged m key old agent h p i = record {
  filed =
      All-insert key agent m.agents
        (let (a, b) = All-lookup key old m.agents h i.filed in
          (ap (λ q. q.value) p ∙ a, subst IsValid (sym p) b))
        i.filed;
  bounded = ground (arith, i.bounded, length-insert_old key agent old m.agents h);
}
