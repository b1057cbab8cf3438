-- ===== src/Agents/Truncation.antt =====
-- localagentcli/agents/truncation.py: cutting the middle out of a text.
use local_agent_cli.Base.{
  Bool, [], arith, drop, false, if◌then◌else◌, leb, length, length-append, length-drop, length-take,
  list_eq, ltb, nat_eq, take, true, ℕ, ◌++◌, ◌+◌, ◌-◌, ◌==◌, ◌∙◌, ◌≡◌, ◌≤◌,
}
use local_agent_cli.Base.Text.{Text, codes}
use local_agent_cli.Base.Decimal.{decimal}
use Prim.Native.Nat.{◌/◌, min}

pub record TruncatedText : Type 0 where
  pub text : Text
  pub was_truncated : Bool
  pub original_chars : ℕ
  pub retained_chars : ℕ

unfoldable pub marker : Text → ℕ → Text
marker text max_chars =
    codes "\n...[" ++ decimal (length text - max_chars) ++ codes " chars truncated]...\n"

abbrev pub untouched : Text → TruncatedText
untouched text = record {
  text = text;
  was_truncated = false;
  original_chars = length text;
  retained_chars = length text;
}

abbrev pub cut_to : Text → Text → TruncatedText
cut_to text kept = record {
  text = kept;
  was_truncated = true;
  original_chars = length text;
  retained_chars = length kept;
}

-- The first half of what the marker leaves, and the last.
unfoldable pub around : Text → Text → ℕ → Text
around text mark payload_chars =
    let left_chars = payload_chars / 2 in
    let right_chars = payload_chars - left_chars in
    take left_chars text ++ (mark ++ drop (length text - right_chars) text)

unfoldable pub truncate_middle : Text → ℕ → TruncatedText
truncate_middle text max_chars =
    if max_chars == 0
    then record {
      text = [];
      was_truncated = ltb 0 (length text);
      original_chars = length text;
      retained_chars = 0;
    }
    else if leb (length text) max_chars
    then untouched text
    else if leb max_chars (length (marker text max_chars))
    then cut_to text (take max_chars (marker text max_chars))
    else cut_to text
        (around text (marker text max_chars) (max_chars - length (marker text max_chars)))

length-around :
    (text mark : Text) (payload_chars : ℕ)
    → payload_chars ≤ length text
    → length (around text mark payload_chars) ≡ payload_chars + length mark
unfolding around
length-around text mark p h =
    let left = p / 2 in
    let right = p - left in
    length-append (take left text) (mark ++ drop (length text - right) text)
    ∙ omega (
      arith,
      h,
      length-append mark (drop (length text - right) text),
      length-take left text,
      length-drop (length text - right) text,
    )

-- The truncated text is as long as the text, or as the limit where the text is longer, the marker
-- included, and its length is what is reported as retained.
pub length-truncate_middle :
    (text : Text) (max_chars : ℕ)
    → (length (truncate_middle text max_chars).text ≡ min max_chars (length text))
      × ((truncate_middle text max_chars).retained_chars
          ≡ length (truncate_middle text max_chars).text)
unfolding truncate_middle
length-truncate_middle text n =
    let mark = marker text n in
    ground (arith, length-take n mark, length-around text mark (n - length mark))
