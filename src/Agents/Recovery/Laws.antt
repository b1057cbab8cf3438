-- ===== src/Agents/Recovery/Laws.antt =====
-- localagentcli/agents/recovery.py: what the classification and the counters promise.
use local_agent_cli.Base.{
  List, [], ap, arith, if◌then◌else◌, leb, list_eq, nat_eq, refl, string_eq, ℕ, ◌+◌, ◌==◌, ◌∷◌, ◌≡◌,
}
use local_agent_cli.Base.Dict.{Dict, lookup, lookup-insert}
use local_agent_cli.Agents.Recovery.{
  FailureClass, FailureContext, count_of, exhausted, failure_eq, retry_budget_for_failure,
  update_failure_counters,
}

-- The counters after a list of failures, the first of them first.
unfoldable pub count_failures : List FailureContext → Dict FailureClass ℕ → Dict FailureClass ℕ
count_failures [] counters = counters
count_failures (failure ∷ later) counters =
    count_failures later (update_failure_counters counters failure).1

-- How many of the failures have the class.
unfoldable pub occurrences : FailureClass → List FailureContext → ℕ
occurrences c [] = 0
occurrences c (failure ∷ later) =
    (if c == failure.failure_class then 1 else 0) + occurrences c later

count_of-update :
    (c : FailureClass) (counters : Dict FailureClass ℕ) (failure : FailureContext)
    → count_of c (update_failure_counters counters failure).1
      ≡ (if c == failure.failure_class then 1 else 0) + count_of c counters
unfolding count_of update_failure_counters
count_of-update c counters failure = ground (
  arith,
  lookup-insert c failure.failure_class (count_of failure.failure_class counters + 1) counters,
)

count_of-count_failures :
    (c : FailureClass) (failures : List FailureContext) (counters : Dict FailureClass ℕ)
    → count_of c (count_failures failures counters) ≡ occurrences c failures + count_of c counters
unfolding count_failures occurrences
count_of-count_failures c [] counters = omega arith
count_of-count_failures c (failure ∷ later) counters = omega (
  arith,
  count_of-update c counters failure,
  count_of-count_failures c later (update_failure_counters counters failure).1,
)

nothing_counted : (c : FailureClass) → count_of c [] ≡ 0
unfolding count_of lookup
nothing_counted c = refl

-- After any failures, the next one is counted as one more than those of its own class, and exhausts
-- the budget exactly if these, with it, are as many as the budget of the class.
pub exhausted-count_failures :
    (failures : List FailureContext) (next : FailureContext)
    → let state = (update_failure_counters (count_failures failures []) next).0 in
      (state.attempt ≡ occurrences next.failure_class failures + 1)
      × (exhausted state
          ≡ leb
              (retry_budget_for_failure next.failure_class)
              (occurrences next.failure_class failures + 1))
unfolding update_failure_counters exhausted
exhausted-count_failures failures next =
    let counted = count_of-count_failures next.failure_class failures [] in
    let attempt : count_of next.failure_class (count_failures failures []) + 1
        ≡ occurrences next.failure_class failures + 1 =
      omega (arith, counted, nothing_counted next.failure_class) in
    (attempt, ap (leb (retry_budget_for_failure next.failure_class)) attempt)
