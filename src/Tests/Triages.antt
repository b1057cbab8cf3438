-- ===== src/Tests/Triages.antt =====
-- Runs of the triage on a small request, and of the token budget on a first call.
use local_agent_cli.Base.{[], false, list_eq, nat_eq, none, refl, string_eq, ◌≡◌}
use local_agent_cli.Base.Text.{codes, ends_with, has_substring, join, lstrip, starts_with, strip}
use local_agent_cli.Base.Result.{err, overflow_error, value_error}
use local_agent_cli.Base.Json.{Json, end, field, get, num, obj, other}
use local_agent_cli.Session.Usage.{
  Counts, IsUpdated, coerce_non_negative_int, first_non_negative_int, normalize_usage_counts,
  update_session_usage_budget, update_session_usage_budget-IsUpdated,
}
use local_agent_cli.Agents.Triage.{
  IsSingle, TriageTexts, classify_heuristically, classify_heuristically-IsSingle, direct_prefixes,
  direct_words, first_triage, is_explaining, is_question, is_staged, multi_step_hints,
  single_step_hints, single_step_task, triage, words_from,
}

abbrev texts : TriageTexts
texts = record {
  loads = λ t. err (value_error (codes "no document"));
  str_of = λ j. [];
  lower = λ t. t;
  is_arithmetic = λ t. false;
  has_staging_word = λ t. false;
  braced = λ t. none;
}

classify_heuristically-IsSingle_example : IsSingle texts (codes "add x")
unfolding classify_heuristically first_triage words_from is_staged is_question is_explaining
    direct_words direct_prefixes single_step_hints multi_step_hints strip lstrip starts_with
    ends_with has_substring codes list_eq nat_eq join
classify_heuristically-IsSingle_example =
    classify_heuristically-IsSingle texts (codes "add x")
      (triage single_step_task "single concrete action") refl refl

-- `int` of an infinity raises.
abbrev counts : Counts
counts = record {
  is_nan = λ t. false;
  of_literal = λ t. err (overflow_error (codes "cannot convert float infinity to integer"));
  of_text = λ t. err (value_error (codes "could not convert string to float"));
}

abbrev usage : Json
usage = obj (field "input_tokens" (num 3) (field "output_tokens" (num 4) end))

update_session_usage_budget-IsUpdated_example :
    IsUpdated counts end usage
      (update_session_usage_budget counts end usage (codes "agent_step") (codes "now"))
update_session_usage_budget-IsUpdated_example =
    update_session_usage_budget-IsUpdated counts end usage (codes "agent_step") (codes "now")

-- An infinite count raises, and leaves the metadata.
infinite :
    update_session_usage_budget counts end
      (obj (field "total_tokens" (other (codes "Infinity")) end))
      (codes "agent_step")
      (codes "now")
    ≡ (err (overflow_error (codes "cannot convert float infinity to integer")), end)
unfolding update_session_usage_budget normalize_usage_counts first_non_negative_int
    coerce_non_negative_int get string_eq
infinite = refl
