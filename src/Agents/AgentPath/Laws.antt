-- ===== src/Agents/AgentPath/Laws.antt =====
-- localagentcli/agents/agent_path.py: what `join` and `resolve` build, and how they compose.
use local_agent_cli.Base.{
  ==_iff, Bool-cases, List, [], ap, append_assoc, arith, contains, false, inl, inr, list_eq, nat_eq,
  refl, subst, sym, ◌++◌, ◌==◌, ◌∙◌, ◌∷◌, ◌≡◌, ◌≢◌,
}
use local_agent_cli.Base.Text.{Text, codes, ends_with, split, starts_with}
use local_agent_cli.Base.Result.{Result-cases, ok, ◌>>◌}
use local_agent_cli.Agents.AgentPath.{
  AgentPath, from_string, is_root, join_name, last_segment, name, resolve, root, root_segment,
  root_text, validate_absolute_path, validate_agent_name, validate_relative_reference,
  validate_segments, validate_stripped,
}
use local_agent_cli.Agents.AgentPath.Segments.{
  ends_with-append, ends_with-contains, split-append, split_plain, starts_with_one,
}

-- A path that `__post_init__` accepts.
abbrev pub IsValid : AgentPath → Type 0
IsValid path = validate_absolute_path path.value ≡ ok tt

validate_segments-append :
    (xs ys : List Text)
    → validate_segments (xs ++ ys) ≡ (validate_segments xs >> validate_segments ys)
unfolding validate_segments
validate_segments-append [] ys = refl
validate_segments-append (x ∷ xs) ys = ground (arith, validate_segments-append xs ys)

ends_with-slash :
    (s t : Text) → t ≢ [] → ends_with (s ++ b'/' ∷ t) (b'/' ∷ []) ≡ ends_with t (b'/' ∷ [])
ends_with-slash s t h =
    ap (λ u. ends_with u (b'/' ∷ [])) (sym (append_assoc s (b'/' ∷ []) t))
    ∙ ends_with-append (s ++ b'/' ∷ []) t b'/' h

validate_stripped-append :
    (stripped t : Text) (segments : List Text)
    → validate_stripped stripped segments ≡ ok tt
    → t ≢ []
    → ends_with t (b'/' ∷ []) ≡ false
    → validate_stripped (stripped ++ b'/' ∷ t) (segments ++ split b'/' t)
      ≡ validate_segments (split b'/' t)
unfolding validate_stripped
validate_stripped-append stripped t [] h n e = cc
validate_stripped-append stripped t (root ∷ rest) h n e =
    ground (arith, ends_with-slash stripped t n, validate_segments-append rest (split b'/' t))

-- Below a valid path, only what is added is still to be checked.
from_string-append :
    (path : AgentPath) (t : Text)
    → IsValid path
    → t ≢ []
    → ends_with t (b'/' ∷ []) ≡ false
    → validate_absolute_path (path.value ++ b'/' ∷ t) ≡ validate_segments (split b'/' t)
unfolding validate_absolute_path
from_string-append path t h n e = go path.value h
  where
    go :
        (value : Text)
        → validate_absolute_path value ≡ ok tt
        → validate_absolute_path (value ++ b'/' ∷ t) ≡ validate_segments (split b'/' t)
    go [] v = cc
    go (c ∷ stripped) v =
        rw (split-append b'/' stripped t)
          (ground (arith, validate_stripped-append stripped t (split b'/' stripped)))

agent_name-plain : (n : Text) → validate_agent_name n ≡ ok tt → (n ≢ []) × (contains n b'/' ≡ false)
unfolding validate_agent_name
agent_name-plain n h = (ground arith, ground arith)

split_nonempty_last : (l : List Text) (n : Text) → last_segment (l ++ n ∷ []) ≡ n
split_nonempty_last [] n = refl
split_nonempty_last (s ∷ []) n = refl
split_nonempty_last (s ∷ t ∷ l) n = split_nonempty_last (t ∷ l) n

abbrev at_value : Text → AgentPath
at_value v = record { value = v }

-- The path of what is added below a path.
abbrev pub below : AgentPath → Text → AgentPath
below path t = record { value = path.value ++ b'/' ∷ t }

-- Joining a name to a valid path fails only as the check of the name does, and gives the path with
-- the name as one more segment.
pub join_name-valid :
    (path : AgentPath) (agent_name : Text)
    → IsValid path
    → join_name path agent_name ≡ (validate_agent_name agent_name >> ok (below path agent_name))
unfolding join_name from_string validate_segments
join_name-valid path n h = elim (Result-cases (validate_agent_name n)) [
  | inr (x, q) ↦ rw q refl
  | inl (u, q) ↦
      let (nonempty, plain) = agent_name-plain n q in
      rw q (
        ground (
          arith,
          q,
          from_string-append path n h nonempty (ends_with-contains n b'/' plain),
          split_plain b'/' n plain,
        ))
]

last_segment-below :
    (path : AgentPath) (n : Text)
    → contains n b'/' ≡ false
    → last_segment (split b'/' (path.value ++ b'/' ∷ n)) ≡ n
last_segment-below path n plain =
    rw (split-append b'/' path.value n, split_plain b'/' n plain)
      (split_nonempty_last (split b'/' path.value) n)

last_segment-root : last_segment (split b'/' root_text) ≡ root_segment
unfolding split codes nat_eq
last_segment-root = refl

name-below :
    (path : AgentPath) (n : Text) → n ≢ [] → contains n b'/' ≡ false → name (below path n) ≡ n
unfolding name is_root
name-below path n nonempty plain = elim (Bool-cases (path.value ++ b'/' ∷ n == root_text)) [
  | inr other ↦ ground (arith, last_segment-below path n plain, nonempty)
  | inl same ↦ ground (
    arith,
    same,
    ap (λ v. last_segment (split b'/' v)) ((==_iff (path.value ++ b'/' ∷ n) root_text).0 same),
    last_segment-below path n plain,
    last_segment-root,
  )
]

-- What `join` gives is a path whose name is the name that was joined.
pub name-join_name :
    (path child : AgentPath) (agent_name : Text)
    → IsValid path
    → join_name path agent_name ≡ ok child
    → name child ≡ agent_name
name-join_name path child n h j = elim (Result-cases (validate_agent_name n)) [
  | inr (x, q) ↦ absurd (ground (arith, q, join_name-valid path n h))
  | inl (u, q) ↦
      let (nonempty, plain) = agent_name-plain n q in
      ground (arith, q, join_name-valid path n h, name-below path n nonempty plain)
]

relative-plain :
    (t : Text) → validate_relative_reference t ≡ ok tt → ends_with t (b'/' ∷ []) ≡ false
unfolding validate_relative_reference
relative-plain t q = ground arith

relative-segments :
    (t : Text) → validate_relative_reference t ≡ ok tt → validate_segments (split b'/' t) ≡ ok tt
unfolding validate_relative_reference
relative-segments t q = ground arith

starts_with-root : (t : Text) → starts_with t (b'/' ∷ []) ≡ false → (t == root_text) ≡ false
unfolding starts_with codes
starts_with-root t s = ground arith

-- From a valid path, a relative reference fails only as its own check does, and gives the path with
-- the reference below it.
pub resolve-relative :
    (path : AgentPath) (reference : Text)
    → IsValid path
    → reference ≢ []
    → starts_with reference (b'/' ∷ []) ≡ false
    → resolve path reference ≡ (validate_relative_reference reference >> ok (below path reference))
unfolding resolve from_string
resolve-relative path t h n s = elim (Result-cases (validate_relative_reference t)) [
  | inr (x, q) ↦ ground (arith, q, n, starts_with-root t s)
  | inl (u, q) ↦ ground (
    arith,
    q,
    n,
    starts_with-root t s,
    relative-segments t q,
    from_string-append path t h n (relative-plain t q),
  )
]

relative-append :
    (s t : Text)
    → t ≢ []
    → validate_relative_reference s ≡ ok tt
    → validate_relative_reference t ≡ ok tt
    → validate_relative_reference (s ++ b'/' ∷ t) ≡ ok tt
unfolding validate_relative_reference
relative-append s t n p q = ground (
  arith,
  ends_with-slash s t n,
  ap validate_segments (split-append b'/' s t),
  validate_segments-append (split b'/' s) (split b'/' t),
  relative-segments s p,
  relative-segments t q,
  relative-plain t q,
)

-- What a successful relative `resolve` says.
resolve-below :
    (path given : AgentPath) (t : Text)
    → IsValid path
    → t ≢ []
    → starts_with t (b'/' ∷ []) ≡ false
    → resolve path t ≡ ok given
    → (validate_relative_reference t ≡ ok tt) × (given ≡ below path t)
resolve-below path given t h n a p = elim (Result-cases (validate_relative_reference t)) [
  | inr (x, q) ↦ absurd (ground (arith, q, resolve-relative path t h n a))
  | inl (u, q) ↦ (q, ground (arith, q, resolve-relative path t h n a))
]

below-IsValid :
    (path : AgentPath) (t : Text)
    → IsValid path
    → t ≢ []
    → validate_relative_reference t ≡ ok tt
    → IsValid (below path t)
below-IsValid path t h n q =
    from_string-append path t h n (relative-plain t q) ∙ relative-segments t q

append-ne-nil : (s t : Text) → s ≢ [] → s ++ t ≢ []
append-ne-nil [] t n = absurd (n refl)
append-ne-nil (c ∷ s) t n = λ q. cc

-- Relative references compose: from a valid path, resolving one and then another from what it gives
-- is resolving the two joined by a slash.
pub resolve-resolve :
    (path middle last : AgentPath) (s t : Text)
    → IsValid path
    → s ≢ []
    → starts_with s (b'/' ∷ []) ≡ false
    → t ≢ []
    → starts_with t (b'/' ∷ []) ≡ false
    → resolve path s ≡ ok middle
    → resolve middle t ≡ ok last
    → resolve path (s ++ b'/' ∷ t) ≡ ok last
resolve-resolve path middle last s t h n a m b p q =
    let (valid_s, is_middle) = resolve-below path middle s h n a p in
    let below_valid = below-IsValid path s h n valid_s in
    let (valid_t, is_last) =
      resolve-below middle last t (subst IsValid (sym is_middle) below_valid) m b q in
    resolve-relative path (s ++ b'/' ∷ t) h (append-ne-nil s (b'/' ∷ t) n)
      (starts_with_one s (b'/' ∷ t) b'/' n ∙ a)
    ∙ ap (λ r. r >> ok (below path (s ++ b'/' ∷ t))) (relative-append s t m valid_s valid_t)
    ∙ ap ok (same_below ∙ ap (λ given. below given t) (sym is_middle) ∙ sym is_last)
  where
    same_below : below path (s ++ b'/' ∷ t) ≡ below (below path s) t
    same_below = ap at_value (sym (append_assoc path.value (b'/' ∷ s) (b'/' ∷ t)))
