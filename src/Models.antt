-- ===== src/Models.antt =====
-- localagentcli/models/backends/base.py: what goes to a model and comes back.
use local_agent_cli.Base.{List, String, drop, length, ℕ, ◌-◌}
use local_agent_cli.Base.Text.{Text}
use local_agent_cli.Base.Json.{Fields, end}

pub record ModelMessage : Type 0 where
  pub role : String
  pub content : Text
  pub metadata : Fields

-- `usage` is a dict of any values; a call is a dict as the provider sent it.
pub record GenerationResult : Type 0 where
  pub text : Text
  pub reasoning : Text
  pub tool_calls : List Fields
  pub usage : Fields
  pub finish_reason : String

-- `messages[-n:]`, for a count that is not zero
unfoldable pub last_items {ℓ} : {A : Type ℓ} → ℕ → List A → List A
last_items n xs = drop (length xs - n) xs

abbrev pub plain_message : String → Text → ModelMessage
plain_message role content = record { role = role; content = content; metadata = end }
