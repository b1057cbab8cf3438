-- ===== src/Tools/PatchApply/Laws.antt =====
-- localagentcli/tools/patch_apply.py: what an operation replaces.
use local_agent_cli.Base.{
  Bool, Bool-cases, List, Option, [], append-nil, arith, contains, drop, false, if◌then◌else◌, inl,
  inr, length, list_eq, nat_eq, none, refl, some, subst, suc, sym, take, true, ℕ, ◌++◌, ◌+◌, ◌-◌,
  ◌==◌, ◌||◌, ◌∙◌, ◌∷◌, ◌≡◌, ◌≤◌, ◌⊎◌,
}
use local_agent_cli.Base.Text.{Text, starts_with}
use local_agent_cli.Base.Result.{Result-cases, ok}
use local_agent_cli.Tools.PatchApply.{
  PatchOperation, apply_legacy_exact_replacement, apply_operation, candidate_matches, choose_match,
  closest, count, count_from, find_among, find_match_index, insert_ranked, is_nil, matches_from,
  matches_here, ranked, reindent_replacement, replace_first, resolve_anchor_index, with_mode,
}

starts_with-split : (t old : Text) → starts_with t old ≡ true → t ≡ old ++ drop (length old) t
unfolding starts_with
starts_with-split t [] h = refl
starts_with-split [] (p ∷ old) h = cc
starts_with-split (c ∷ t) (p ∷ old) h = ground (arith, starts_with-split t old (ground (arith, h)))

-- One occurrence is replaced, and nothing else.
pub record IsReplacedOnce (content old new updated : Text) : Type 0 where
  pub pre : Text
  pub post : Text
  pub there : content ≡ pre ++ (old ++ post)
  pub then_there : updated ≡ pre ++ (new ++ post)

replace_first-IsReplacedOnce :
    (old new t : Text)
    → (count_from old 0 t ≡ 0) ⊎ IsReplacedOnce t old new (replace_first old new t)
unfolding count_from replace_first
replace_first-IsReplacedOnce old new [] = inl refl
replace_first-IsReplacedOnce old new (c ∷ t) = elim (Bool-cases (starts_with (c ∷ t) old)) [
  | inl found ↦ inr (record {
    pre = [];
    post = drop (length old) (c ∷ t);
    there = starts_with-split (c ∷ t) old found;
    then_there = ground (arith, found);
  })
  | inr missing ↦ elim (replace_first-IsReplacedOnce old new t) [
    | inl none_there ↦ inl (ground (arith, missing, none_there))
    | inr r ↦ inr (record {
      pre = c ∷ r.pre;
      post = r.post;
      there = ground (arith, r.there);
      then_there = ground (arith, missing, r.then_there);
    })
  ]
]

empty-IsReplacedOnce :
    (content new : Text)
    → length content ≡ 0
    → IsReplacedOnce content [] new (replace_first [] new content)
unfolding replace_first
empty-IsReplacedOnce [] new h = record {
  pre = [];
  post = [];
  there = refl;
  then_there = ground (arith, append-nil new);
}
empty-IsReplacedOnce (c ∷ t) new h = absurd (omega (arith, h))

legacy-updated :
    (content old new updated : Text)
    → apply_legacy_exact_replacement content old new ≡ ok updated
    → (count content old ≡ 1) × (replace_first old new content ≡ updated)
unfolding apply_legacy_exact_replacement
legacy-updated content old new updated h = (ground (arith, h), ground (arith, h))

once-IsReplacedOnce :
    (content old new : Text)
    → count content old ≡ 1
    → IsReplacedOnce content old new (replace_first old new content)
unfolding count
once-IsReplacedOnce content [] new h = empty-IsReplacedOnce content new (ground (arith, h))
once-IsReplacedOnce content (p ∷ old) new h =
    elim (replace_first-IsReplacedOnce (p ∷ old) new content) [
      | inl q ↦ absurd (ground (arith, h, q))
      | inr r ↦ r
    ]

-- The legacy replacement, where it succeeds, replaces an occurrence of the old text by the new one, and
-- leaves the text around it as it is; and there was one occurrence, counted without overlaps.
pub apply_legacy_exact_replacement-IsReplacedOnce :
    (content old_text new_text updated : Text)
    → apply_legacy_exact_replacement content old_text new_text ≡ ok updated
    → (count content old_text ≡ 1) × IsReplacedOnce content old_text new_text updated
apply_legacy_exact_replacement-IsReplacedOnce content old new updated h =
    let (one, e) = legacy-updated content old new updated h in
    (one, subst (IsReplacedOnce content old new) e (once-IsReplacedOnce content old new one))

contains-insert_ranked :
    (a i j : ℕ) (matches : List ℕ)
    → contains (insert_ranked a i matches) j ≡ ((j == i) || contains matches j)
unfolding insert_ranked
contains-insert_ranked a i j [] = refl
contains-insert_ranked a i j (k ∷ rest) = ground (arith, contains-insert_ranked a i j rest)

contains-ranked : (a j : ℕ) (matches : List ℕ) → contains (ranked a matches) j ≡ contains matches j
unfolding ranked
contains-ranked a j [] = refl
contains-ranked a j (i ∷ rest) =
    contains-insert_ranked a i j (ranked a rest) ∙ ground (arith, contains-ranked a j rest)

closest-contains :
    (a j : ℕ) (matches : List ℕ) → closest a matches ≡ ok j → contains matches j ≡ true
closest-contains a j [] h = cc
closest-contains a j (i ∷ []) h = ground (arith, h)
closest-contains a j (i ∷ k ∷ rest) h = ground (arith, h)

-- What is chosen is one of the matches.
choose_match-contains :
    (matches : List ℕ) (index : Option ℕ) (j : ℕ)
    → choose_match matches index ≡ ok j
    → contains matches j ≡ true
unfolding choose_match
choose_match-contains (i ∷ []) index j h = ground (arith, h)
choose_match-contains [] (some a) j h =
    sym (contains-ranked a j []) ∙ closest-contains a j (ranked a []) h
choose_match-contains (i ∷ k ∷ rest) (some a) j h =
    sym (contains-ranked a j (i ∷ k ∷ rest)) ∙ closest-contains a j (ranked a (i ∷ k ∷ rest)) h
choose_match-contains [] none j h = cc
choose_match-contains (i ∷ k ∷ rest) none j h = cc

-- A match is a place where the expected lines are.
matches_from-matches_here :
    (fuzzy : Bool) (expected : List Text) (i j : ℕ) (lines : List Text)
    → contains (matches_from fuzzy expected i lines) j ≡ true
    → (i ≤ j) × (matches_here fuzzy expected (drop (j - i) lines) ≡ true)
unfolding matches_from
matches_from-matches_here fuzzy expected i j [] h = cc
matches_from-matches_here fuzzy expected i j (line ∷ lines) h =
    elim (Bool-cases (contains (matches_from fuzzy expected (i + 1) lines) j)) [
      | inl later ↦
          let (less, matched) = matches_from-matches_here fuzzy expected (i + 1) j lines later in
          let e : j - i ≡ suc (j - (i + 1)) = omega (arith, less) in
          (omega (arith, less), rw e matched)
      | inr no_more ↦ elim (Bool-cases (matches_here fuzzy expected (line ∷ lines))) [
        | inr elsewhere ↦ absurd (ground (arith, h, no_more, elsewhere))
        | inl here ↦
            let same : j ≡ i = ground (arith, h, no_more, here) in
            let e : j - i ≡ 0 = omega (arith, same) in (omega (arith, same), rw e here)
      ]
    ]

-- The lines of an operation are found at a place, as they are or without their margins, and there they
-- are replaced.
pub record IsApplied (lines : List Text) (operation : PatchOperation) (updated : List Text)
    (next : ℕ) : Type 0 where
  pub start : ℕ
  pub fuzzy : Bool
  pub matched : matches_here fuzzy operation.old_lines (drop start lines) ≡ true
  pub replacement : List Text
  pub is_replacement : replacement ≡ (
      if fuzzy
      then reindent_replacement operation.new_lines
          (take (length operation.old_lines) (drop start lines))
          operation.old_lines
      else operation.new_lines)
  pub becomes :
      updated ≡ take start lines ++ (replacement ++ drop (start + length operation.old_lines) lines)
  pub moves : next ≡ start + length replacement

with_mode-contains :
    (matches : List ℕ) (index : Option ℕ) (mode fuzzy : Bool) (start : ℕ)
    → with_mode mode (choose_match matches index) ≡ ok (start, fuzzy)
    → (fuzzy ≡ mode) × (contains matches start ≡ true)
with_mode-contains matches index mode fuzzy start h =
    elim (Result-cases (choose_match matches index)) [
      | inr (raised, q) ↦ absurd (ground (arith, h, q))
      | inl (i, q) ↦
          let same : i ≡ start = ground (arith, h, q) in
          (
            ground (arith, h, q),
            subst (λ j. contains matches j ≡ true) same (choose_match-contains matches index i q),
          )
    ]

candidate_matches-matches_here :
    (fuzzy : Bool) (lines expected : List Text) (start : ℕ)
    → contains (candidate_matches fuzzy lines expected) start ≡ true
    → matches_here fuzzy expected (drop start lines) ≡ true
unfolding candidate_matches
candidate_matches-matches_here fuzzy lines [] start h = cc
candidate_matches-matches_here fuzzy lines (x ∷ expected) start h =
    let e : start - 0 ≡ start = omega arith in
    subst (λ n. matches_here fuzzy (x ∷ expected) (drop n lines) ≡ true) e
      (matches_from-matches_here fuzzy (x ∷ expected) 0 start lines h).1

find_among-matches_here :
    (lines expected : List Text) (exact loose : List ℕ) (index : Option ℕ) (start : ℕ)
    (fuzzy : Bool)
    → exact ≡ candidate_matches false lines expected
    → loose ≡ candidate_matches true lines expected
    → find_among exact loose index ≡ ok (start, fuzzy)
    → matches_here fuzzy expected (drop start lines) ≡ true
find_among-matches_here lines expected (i ∷ exact) loose index start fuzzy p q h =
    let (mode, there) = with_mode-contains (i ∷ exact) index false fuzzy start h in
    subst (λ b. matches_here b expected (drop start lines) ≡ true) (sym mode)
      (candidate_matches-matches_here false lines expected start
        (subst (λ m. contains m start ≡ true) p there))
find_among-matches_here lines expected [] (i ∷ loose) index start fuzzy p q h =
    let (mode, there) = with_mode-contains (i ∷ loose) index true fuzzy start h in
    subst (λ b. matches_here b expected (drop start lines) ≡ true) (sym mode)
      (candidate_matches-matches_here true lines expected start
        (subst (λ m. contains m start ≡ true) q there))
find_among-matches_here lines expected [] [] index start fuzzy p q h = cc

-- An operation with old lines that succeeds has found them, as they are or without their margins, at a
-- place in the text, and has put its own lines there, moved to the margin that was found where the
-- match is without margins; the lines before and after are as they were, and the next operation starts
-- after the new lines.
pub apply_operation-IsApplied :
    (lines : List Text) (operation : PatchOperation) (cursor : ℕ) (updated : List Text) (next : ℕ)
    → is_nil operation.old_lines ≡ false
    → apply_operation lines operation cursor ≡ ok (updated, next)
    → IsApplied lines operation updated next
unfolding apply_operation find_match_index
apply_operation-IsApplied lines operation cursor updated next some_lines h =
    let index = resolve_anchor_index lines operation.anchors cursor in
    elim (Result-cases (find_match_index lines operation.old_lines index)) [
      | inr (raised, q) ↦ absurd (ground (arith, h, some_lines, q))
      | inl (found, q) ↦ record {
        start = found.0;
        fuzzy = found.1;
        matched =
            find_among-matches_here lines operation.old_lines
              (candidate_matches false lines operation.old_lines)
              (candidate_matches true lines operation.old_lines) index found.0 found.1 refl refl q;
        replacement =
            if found.1
            then reindent_replacement operation.new_lines
                (take (length operation.old_lines) (drop found.0 lines)) operation.old_lines
            else operation.new_lines;
        is_replacement = refl;
        becomes = ground (arith, h, some_lines, q);
        moves = ground (arith, h, some_lines, q);
      }
    ]
