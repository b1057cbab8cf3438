-- ===== src/Agents/ContextWindow.antt =====
-- localagentcli/agents/context_window.py: the end of a conversation, with a system message.
use local_agent_cli.Base.{
  Bool, Bool-cases, List, Option, Option-cases, [], any, arith, drop, false, if◌then◌else◌, inl,
  inr, leb, length, length-drop, nat_eq, none, refl, some, string_eq, suc, true, zero, ℕ, ◌+◌, ◌-◌,
  ◌==◌, ◌∷◌, ◌≡◌, ◌≤◌,
}
use local_agent_cli.Models.{ModelMessage, last_items}
use local_agent_cli.Base.Result.{message}

abbrev pub is_system : ModelMessage → Bool
is_system message = message.role == "system"

-- `next((m for m in context if m.role == "system"), None)`
unfoldable pub first_system : List ModelMessage → Option ModelMessage
first_system [] = none
first_system (message ∷ rest) = if is_system message then some message else first_system rest

abbrev pub with_first : Option ModelMessage → List ModelMessage → List ModelMessage
with_first none tail = tail
with_first (some system) tail = system ∷ tail

unfoldable pub recent_context_with_system : List ModelMessage → ℕ → List ModelMessage
unfolding first_system last_items
recent_context_with_system context tail_limit =
    if tail_limit == 0
    then []
    else if leb (length context) tail_limit
    then context
    else if any is_system (last_items tail_limit context)
    then last_items tail_limit context
    else with_first (first_system context) (last_items tail_limit context)

any-first_system :
    (context : List ModelMessage) (system : ModelMessage)
    → first_system context ≡ some system
    → is_system system ≡ true
unfolding first_system
any-first_system [] system h = absurd (ground arith)
any-first_system (message ∷ rest) system h = elim (Bool-cases (is_system message)) [
  | inl here ↦ ground (arith, h, here)
  | inr later ↦ any-first_system rest system (ground (arith, h, later))
]

first_system-any :
    (context : List ModelMessage) (system : ModelMessage)
    → first_system context ≡ some system
    → any is_system context ≡ true
unfolding first_system
first_system-any [] system h = absurd (ground arith)
first_system-any (message ∷ rest) system h = elim (Bool-cases (is_system message)) [
  | inl here ↦ ground (arith, here)
  | inr later ↦ ground (arith, later, first_system-any rest system (ground (arith, h, later)))
]

none-first_system :
    (context : List ModelMessage) → first_system context ≡ none → any is_system context ≡ false
unfolding first_system
none-first_system [] h = refl
none-first_system (message ∷ rest) h = elim (Bool-cases (is_system message)) [
  | inl here ↦ absurd (ground (arith, h, here))
  | inr later ↦ ground (arith, later, none-first_system rest (ground (arith, h, later)))
]

any-drop :
    (n : ℕ) (context : List ModelMessage)
    → any is_system (drop n context) ≡ true
    → any is_system context ≡ true
any-drop zero context h = h
any-drop (suc n) [] h = h
any-drop (suc n) (message ∷ rest) h = ground (arith, any-drop n rest h)

length-last_items : (n : ℕ) (context : List ModelMessage) → length (last_items n context) ≤ n
unfolding last_items
length-last_items n context = omega (arith, length-drop (length context - n) context)

-- With a limit that is not zero: at most one message more than the limit is kept, and one of the
-- system is kept exactly if the context has one.
pub recent_context_with_system-keeps_system :
    (context : List ModelMessage) (tail_limit : ℕ)
    → (tail_limit == 0) ≡ false
    → (length (recent_context_with_system context tail_limit) ≤ tail_limit + 1)
      × (any is_system (recent_context_with_system context tail_limit) ≡ any is_system context)
unfolding recent_context_with_system last_items
recent_context_with_system-keeps_system context n h =
    let tail = last_items n context in
    elim (Bool-cases (leb (length context) n)) [
      | inl short ↦ (ground (arith, h, short), ground (arith, h, short))
      | inr long ↦ elim (Bool-cases (any is_system tail)) [
        | inl has ↦ (
          ground (arith, h, long, has, length-last_items n context),
          ground (arith, h, long, has, any-drop (length context - n) context),
        )
        | inr lacks ↦ elim (Option-cases (first_system context)) [
          | inl no_system ↦ (
            ground (arith, h, long, lacks, no_system, length-last_items n context),
            ground (arith, h, long, lacks, no_system, none-first_system context no_system),
          )
          | inr (system, found) ↦ (
            ground (arith, h, long, lacks, found, length-last_items n context),
            ground (
              arith,
              h,
              long,
              lacks,
              found,
              any-first_system context system found,
              first_system-any context system found,
            ),
          )
        ]
      ]
    ]
