-- ===== src/Tools/PatchApply/Parse.antt =====
-- localagentcli/tools/patch_apply.py: the operations of a patch.
use local_agent_cli.Base.{
  Bool, List, [], contains, false, if◌then◌else◌, keep, list_eq, nat_eq, not, true, ℕ, ◌&&◌, ◌++◌,
  ◌==◌, ◌||◌, ◌∷◌,
}
use local_agent_cli.Base.Text.{Text, codes, push_head, starts_with, strip, whitespace}

pub record PatchOperation : Type 0 where
  pub anchors : List Text
  pub old_lines : List Text
  pub new_lines : List Text

-- What `str.splitlines` splits at.
abbrev pub line_breaks : List ℕ
line_breaks = 10 ∷ 11 ∷ 12 ∷ 13 ∷ 28 ∷ 29 ∷ 30 ∷ 133 ∷ 8232 ∷ 8233 ∷ []

-- `after_return`: a line feed after a carriage return belongs to it.
unfoldable pub lines_from : Bool → Text → List Text
lines_from after_return [] = []
lines_from after_return (c ∷ t) =
    let rest = lines_from (c == 13) t in
    if after_return && c == 10
    then rest
    else if contains line_breaks c
    then [] ∷ rest
    else push_head c rest

-- `s.splitlines()`
unfoldable pub splitlines : Text → List Text
splitlines t = lines_from false t

abbrev pub is_blank : Text → Bool
is_blank t = strip whitespace t == []

-- What the parser keeps between lines; the operations come in order.
pub record PatchState : Type 0 where
  pub operations : List PatchOperation
  pub pending : PatchOperation

abbrev pub no_operation : PatchOperation
no_operation = record { anchors = []; old_lines = []; new_lines = [] }

abbrev pub is_nil : List Text → Bool
is_nil [] = true
is_nil (t ∷ rest) = false

abbrev pub has_lines : PatchOperation → Bool
has_lines p = not (is_nil p.old_lines) || not (is_nil p.new_lines)

-- Anchors stay where there are no lines yet.
unfoldable pub flush : PatchState → PatchState
flush s =
    if has_lines s.pending
    then record {
      operations =
          s.operations
          ++ (record s.pending { anchors = keep (λ anchor. not (anchor == [])) s.pending.anchors }
              ∷ []);
      pending = no_operation;
    }
    else s

abbrev pub add_lines : List Text → List Text → PatchState → PatchState
add_lines old new s = record s {
  pending = record s.pending {
    old_lines = s.pending.old_lines ++ old;
    new_lines = s.pending.new_lines ++ new;
  };
}

-- A line that starts with `@@` ends the operation before it and gives an anchor for the next.
unfoldable pub add_anchor : Text → PatchState → PatchState
unfolding flush
add_anchor line s =
    let flushed = flush s in
    let marker = strip whitespace (strip (b'@' ∷ b' ' ∷ []) line) in
    if marker == [] then flushed else record flushed {
      pending = record flushed.pending { anchors = flushed.pending.anchors ++ (marker ∷ []) };
    }

-- By the line's first character, where it is not a line about the patch.
abbrev pub add_text : Text → PatchState → PatchState
add_text [] s = add_lines ([] ∷ []) ([] ∷ []) s
add_text (c ∷ line) s =
    if c == b'-'
    then add_lines (line ∷ []) [] s
    else if c == b'+'
    then add_lines [] (line ∷ []) s
    else if c == b' '
    then add_lines (line ∷ []) (line ∷ []) s
    else if is_blank (c ∷ line)
    then add_lines ([] ∷ []) ([] ∷ []) s
    else add_lines ((c ∷ line) ∷ []) ((c ∷ line) ∷ []) s

unfoldable pub add_line : Text → PatchState → PatchState
unfolding add_anchor
add_line line s =
    if starts_with line (codes "*** Begin Patch")
      || starts_with line (codes "*** End Patch")
      || starts_with line (codes "*** Update File:")
    then s
    else if starts_with line (codes "@@")
    then add_anchor line s
    else add_text line s

unfoldable pub add_all : List Text → PatchState → PatchState
unfolding add_line
add_all [] s = s
add_all (line ∷ rest) s = add_all rest (add_line line s)

unfoldable pub parse_patch_operations : Text → List PatchOperation
unfolding add_all flush splitlines
parse_patch_operations patch =
    (flush
      (add_all (splitlines patch) (record { operations = []; pending = no_operation }))).operations
