-- ===== src/Guardian/Laws.antt =====
-- localagentcli/guardian/reviewer.py: when an action is let through.
use local_agent_cli.Base.{
  List, [], arith, contains, false, inl, inr, list_eq, nat_eq, string_eq, true, ℕ, ◌<◌, ◌==◌, ◌↔◌,
  ◌≡◌,
}
use local_agent_cli.Base.Text.{Text, strip, whitespace}
use local_agent_cli.Base.Result.{Result, Result-cases, ok}
use local_agent_cli.Base.Json.{Fields, get}
use local_agent_cli.Models.{ModelMessage}
use local_agent_cli.Guardian.{
  GuardianReviewRequest, Texts, build_guardian_messages, fail_closed, judge,
  parse_guardian_assessment, parse_json_payload, review_with_guardian, risk_levels, score_of,
  stripped_item,
}

-- An answer that names a known level and a score below the threshold, with a reason.
pub record IsCleared (texts : Texts) (threshold : ℕ) (response : Text) : Type 0 where
  pub payload : Fields
  pub score : ℕ
  pub answered : (strip whitespace response == []) ≡ false
  pub parsed : parse_json_payload texts (strip whitespace response) ≡ ok payload
  pub levelled :
      contains risk_levels (texts.lower (stripped_item texts "risk_level" [] payload)) ≡ true
  pub scored : score_of (get "risk_score" payload) ≡ ok score
  pub reasoned : (stripped_item texts "rationale" [] payload == []) ≡ false
  pub low : score < threshold

module _ (texts : Texts) (threshold : ℕ) (response : Text) where
  IsCleared-approved :
      IsCleared texts threshold response → (judge texts threshold response).approved ≡ true
  unfolding judge parse_guardian_assessment
  IsCleared-approved c =
      ground (arith, c.answered, c.parsed, c.levelled, c.scored, c.reasoned, c.low)

  approved-IsCleared :
      (judge texts threshold response).approved ≡ true → IsCleared texts threshold response
  unfolding judge parse_guardian_assessment fail_closed
  approved-IsCleared h =
      elim (Result-cases (parse_json_payload texts (strip whitespace response))) [
        | inr (x, q) ↦ absurd (ground (arith, q))
        | inl (payload, q) ↦ elim (Result-cases (score_of (get "risk_score" payload))) [
          | inr (x, r) ↦ absurd (ground (arith, q, r))
          | inl (score, r) ↦ record {
            payload = payload;
            score = score;
            answered = ground (arith, q, r);
            parsed = q;
            levelled = ground (arith, q, r);
            scored = r;
            reasoned = ground (arith, q, r);
            low = ground (arith, q, r);
          }
        ]
      ]

-- The reviewer lets an action through exactly if the model gives an answer, and the answer holds an
-- object with a known risk level, a score below the threshold and a reason; whatever else the model
-- does, the action is denied.
pub review_with_guardian-IsCleared :
    (texts : Texts) (system_prompt : Text) (deny_threshold : ℕ)
    (generate : List ModelMessage → Result Text) (request : GuardianReviewRequest)
    → ((review_with_guardian texts system_prompt deny_threshold generate request).approved ≡ true)
      ↔ ((response : Text) × (generate (build_guardian_messages texts system_prompt request)
            ≡ ok response)
          × IsCleared texts deny_threshold response)
unfolding review_with_guardian fail_closed
review_with_guardian-IsCleared texts system_prompt deny_threshold generate request =
    (forward, backward)
  where
    answer : Result Text
    answer = generate (build_guardian_messages texts system_prompt request)

    forward :
        (review_with_guardian texts system_prompt deny_threshold generate request).approved ≡ true
        → (response : Text) × (answer ≡ ok response) × IsCleared texts deny_threshold response
    forward h = elim (Result-cases answer) [
      | inr (x, q) ↦ absurd (ground (arith, q))
      | inl (response, q) ↦
          (response, q, approved-IsCleared texts deny_threshold response (ground (arith, q)))
    ]

    backward :
        ((response : Text) × (answer ≡ ok response) × IsCleared texts deny_threshold response)
        → (review_with_guardian texts system_prompt deny_threshold generate request).approved ≡ true
    backward (response, q, c) =
        ground (arith, q, IsCleared-approved texts deny_threshold response c)
