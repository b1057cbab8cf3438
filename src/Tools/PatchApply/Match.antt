-- ===== src/Tools/PatchApply/Match.antt =====
-- localagentcli/tools/patch_apply.py: where an operation applies, and what it makes of the lines.
use local_agent_cli.Base.{
  Bool, List, Option, [], drop, false, if◌then◌else◌, keep, leb, length, list_eq, ltb, map, min,
  nat_eq, none, not, some, suc, take, true, zero, ℕ, ◌&&◌, ◌++◌, ◌+◌, ◌-◌, ◌==◌, ◌∷◌,
}
use local_agent_cli.Base.Text.{
  Text, codes, ends_with, has_substring, join, lstrip, starts_with, strip, whitespace,
}
use local_agent_cli.Base.Result.{Result, err, ok, value_error, ◌>>=◌}
use local_agent_cli.Tools.PatchApply.Parse.{
  PatchOperation, is_blank, is_nil, parse_patch_operations, splitlines,
}

-- The first line from `start` on that has the anchor; `i` is the number of the first line here.
unfoldable pub find_anchor : Text → ℕ → ℕ → List Text → Option ℕ
find_anchor anchor start i [] = none
find_anchor anchor start i (line ∷ rest) =
    let later = find_anchor anchor start (i + 1) rest in
    if leb start i && has_substring line anchor then some i else later

abbrev pub after : Option ℕ → ℕ
after none = 0
after (some i) = i + 1

abbrev pub or_index : Option ℕ → Option ℕ → Option ℕ
or_index (some found) index = some found
or_index none index = index

-- An anchor that is not found is passed over. The index -1 is none.
unfoldable pub follow_anchors : List Text → List Text → Option ℕ → Option ℕ
unfolding find_anchor
follow_anchors lines [] index = index
follow_anchors lines (anchor ∷ rest) index =
    follow_anchors lines rest (or_index (find_anchor anchor (after index) 0 lines) index)

-- `max(cursor - 1, -1)`
abbrev pub before_cursor : ℕ → Option ℕ
before_cursor zero = none
before_cursor (suc n) = some n

unfoldable pub resolve_anchor_index : List Text → List Text → ℕ → Option ℕ
unfolding follow_anchors
resolve_anchor_index lines anchors cursor = follow_anchors lines anchors (before_cursor cursor)

-- The lines start with the expected ones, or with ones that are the same without their margins.
unfoldable pub matches_here : Bool → List Text → List Text → Bool
matches_here fuzzy [] lines = true
matches_here fuzzy (x ∷ expected) [] = false
matches_here fuzzy (x ∷ expected) (line ∷ lines) =
    (if fuzzy then strip whitespace line == strip whitespace x else line == x)
    && matches_here fuzzy expected lines

unfoldable pub matches_from : Bool → List Text → ℕ → List Text → List ℕ
unfolding matches_here
matches_from fuzzy expected i [] = []
matches_from fuzzy expected i (line ∷ lines) =
    let later = matches_from fuzzy expected (i + 1) lines in
    if matches_here fuzzy expected (line ∷ lines) then i ∷ later else later

unfoldable pub candidate_matches : Bool → List Text → List Text → List ℕ
unfolding matches_from
candidate_matches fuzzy lines expected =
    if is_nil expected then [] else matches_from fuzzy expected 0 lines

-- `abs(index - anchor_index)`
abbrev pub distance : ℕ → ℕ → ℕ
distance a i = (i - a) + (a - i)

-- `sorted` by the distance: equal ones keep their order.
unfoldable pub insert_ranked : ℕ → ℕ → List ℕ → List ℕ
insert_ranked a i [] = i ∷ []
insert_ranked a i (j ∷ rest) =
    let later = insert_ranked a i rest in
    if leb (distance a i) (distance a j) then i ∷ j ∷ rest else j ∷ later

unfoldable pub ranked : ℕ → List ℕ → List ℕ
unfolding insert_ranked
ranked a [] = []
ranked a (i ∷ rest) = insert_ranked a i (ranked a rest)

abbrev pub ambiguous : Result ℕ
ambiguous = err (value_error (codes "old_text matched more than one location"))

-- The closest, unless the next is as close.
abbrev pub closest : ℕ → List ℕ → Result ℕ
closest a [] = ambiguous
closest a (i ∷ []) = ok i
closest a (i ∷ j ∷ rest) = if distance a i == distance a j then ambiguous else ok i

unfoldable pub choose_match : List ℕ → Option ℕ → Result ℕ
unfolding ranked
choose_match (i ∷ []) index = ok i
choose_match matches (some a) = closest a (ranked a matches)
choose_match matches none = ambiguous

abbrev pub with_mode : Bool → Result ℕ → Result (ℕ × Bool)
with_mode fuzzy (err e) = err e
with_mode fuzzy (ok i) = ok (i, fuzzy)

-- The place of the match, and whether it is a fuzzy one.
abbrev pub find_among : List ℕ → List ℕ → Option ℕ → Result (ℕ × Bool)
find_among (i ∷ exact) fuzzy index = with_mode false (choose_match (i ∷ exact) index)
find_among [] (i ∷ fuzzy) index = with_mode true (choose_match (i ∷ fuzzy) index)
find_among [] [] index = err (value_error (codes "old_text did not match any content"))

unfoldable pub find_match_index : List Text → List Text → Option ℕ → Result (ℕ × Bool)
unfolding choose_match candidate_matches
find_match_index lines expected index =
    find_among (candidate_matches false lines expected) (candidate_matches true lines expected)
      index

-- `len(line) - len(line.lstrip(" \t"))`
unfoldable pub margin : Text → ℕ
margin line = length line - length (lstrip (b' ' ∷ 9 ∷ []) line)

-- The margin of the line that matched the first line that is not blank.
unfoldable pub base_indent : List Text → List Text → Text
unfolding margin
base_indent (x ∷ expected) (line ∷ lines) =
    let later = base_indent expected lines in if is_blank x then later else take (margin line) line
base_indent [] lines = []
base_indent (x ∷ expected) [] = []

unfoldable pub common_indent : ℕ → List Text → ℕ
unfolding margin
common_indent n [] = n
common_indent n (line ∷ rest) = common_indent (min n (margin line)) rest

abbrev pub adjust : Text → ℕ → Text → Text
adjust base n line = if is_blank line then [] else base ++ drop n line

abbrev pub reindented : List Text → Text → List Text → List Text
reindented replacement base [] = replacement
reindented replacement base (first ∷ rest) =
    map (adjust base (common_indent (margin first) rest)) replacement

unfoldable pub reindent_replacement : List Text → List Text → List Text → List Text
unfolding base_indent common_indent
reindent_replacement replacement matched expected =
    reindented replacement (base_indent expected matched)
      (keep (λ line. not (is_blank line)) replacement)

-- `[*lines[:start], *replacement, *lines[end:]]`, and the cursor after the replacement
abbrev pub spliced : List Text → ℕ → ℕ → List Text → List Text × ℕ
spliced lines start size replacement =
    (take start lines ++ (replacement ++ drop (start + size) lines), start + length replacement)

abbrev pub replaced : List Text → PatchOperation → ℕ × Bool → List Text × ℕ
replaced lines operation (start, fuzzy) =
    let size = length operation.old_lines in
    spliced lines start size (
      if fuzzy
      then reindent_replacement operation.new_lines (take size (drop start lines))
          operation.old_lines
      else operation.new_lines)

abbrev pub insertion_index : Option ℕ → ℕ → ℕ
insertion_index (some i) cursor = i + 1
insertion_index none cursor = cursor

unfoldable pub apply_operation : List Text → PatchOperation → ℕ → Result (List Text × ℕ)
unfolding resolve_anchor_index find_match_index reindent_replacement
apply_operation lines operation cursor =
    let index = resolve_anchor_index lines operation.anchors cursor in
    if is_nil operation.old_lines
    then ok (spliced lines (insertion_index index cursor) 0 operation.new_lines)
    else elim (find_match_index lines operation.old_lines index) [
      | err e ↦ err e
      | ok found ↦ ok (replaced lines operation found)
    ]

unfoldable pub apply_all : List PatchOperation → List Text → ℕ → Result (List Text)
unfolding apply_operation
apply_all [] lines cursor = ok lines
apply_all (operation ∷ rest) lines cursor = do
  (updated, next) ← apply_operation lines operation cursor
  apply_all rest updated next

unfoldable pub apply_operations : Text → List PatchOperation → Result Text
unfolding apply_all splitlines
apply_operations content operations = do
  lines ← apply_all operations (splitlines content) 0
  let updated = join (10 ∷ []) lines
  ok (if ends_with content (10 ∷ []) then updated ++ (10 ∷ []) else updated)

-- `content.count(old_text)`: `skip` characters belong to the last occurrence.
unfoldable pub count_from : Text → ℕ → Text → ℕ
count_from old skip [] = 0
count_from old (suc skip) (c ∷ t) = count_from old skip t
count_from old zero (c ∷ t) =
    let found = starts_with (c ∷ t) old in
    let rest = count_from old (if found then length old - 1 else 0) t in
    if found then rest + 1 else rest

unfoldable pub count : Text → Text → ℕ
unfolding count_from
count content old = if old == [] then length content + 1 else count_from old 0 content

-- `content.replace(old_text, new_text, 1)`
unfoldable pub replace_first : Text → Text → Text → Text
replace_first old new [] = if old == [] then new else []
replace_first old new (c ∷ t) =
    let rest = replace_first old new t in
    if starts_with (c ∷ t) old then new ++ drop (length old) (c ∷ t) else c ∷ rest

unfoldable pub apply_legacy_exact_replacement : Text → Text → Text → Result Text
unfolding count replace_first
apply_legacy_exact_replacement content old_text new_text =
    let occurrences = count content old_text in
    if occurrences == 0
    then err (value_error (codes "old_text did not match any content"))
    else if ltb 1 occurrences
    then err (value_error (codes "old_text matched more than one location"))
    else ok (replace_first old_text new_text content)

abbrev pub given_operations : Option Text → Option Text → Result (List PatchOperation)
given_operations (some old_text) (some new_text) =
    ok (
      record { anchors = []; old_lines = splitlines old_text; new_lines = splitlines new_text }
      ∷ [])
given_operations _ _ = err (
    value_error
      (codes "Provide either patch content or both old_text and new_text for compatibility."))

abbrev pub operations_or :
    List PatchOperation → Result (List PatchOperation) → Result (List PatchOperation)
operations_or [] fallback = fallback
operations_or (operation ∷ rest) fallback = ok (operation ∷ rest)

-- A patch that is blank or missing is no patch.
abbrev pub patch_or_blank : Option Text → Text
patch_or_blank none = []
patch_or_blank (some patch) = patch

unfoldable pub resolve_operations :
    Option Text → Option Text → Option Text → Result (List PatchOperation)
unfolding parse_patch_operations splitlines
resolve_operations old_text new_text patch =
    let text = patch_or_blank patch in
    operations_or (if is_blank text then [] else parse_patch_operations text)
      (given_operations old_text new_text)

abbrev pub legacy : Text → Text → Option Text → Result Text
legacy content old_text none =
    err (value_error (codes "new_text is required when old_text is provided"))
legacy content old_text (some new_text) = apply_legacy_exact_replacement content old_text new_text

abbrev pub by_operations : Text → Option Text → Option Text → Option Text → Result Text
by_operations content old_text new_text patch =
    resolve_operations old_text new_text patch >>= apply_operations content

abbrev pub by_text : Text → Option Text → Option Text → Option Text → Result Text
by_text content none new_text patch = by_operations content none new_text patch
by_text content (some old_text) new_text patch = legacy content old_text new_text

-- What `execute` makes of the file's text.
unfoldable pub patched : Text → Option Text → Option Text → Option Text → Result Text
unfolding resolve_operations apply_operations apply_legacy_exact_replacement
patched content old_text new_text patch =
    if is_blank (patch_or_blank patch)
    then by_text content old_text new_text patch
    else by_operations content old_text new_text patch
