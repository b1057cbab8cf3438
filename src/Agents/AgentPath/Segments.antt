-- ===== src/Agents/AgentPath/Segments.antt =====
-- How a text splits at its slashes, and how it ends.
use mathlib.Core.List.{reverse, reverse-append, reverse-reverse}
use local_agent_cli.Base.{
  List, [], ap, arith, contains, contains-append, false, list_eq, nat_eq, refl, sym, ℕ, ◌++◌, ◌∙◌,
  ◌∷◌, ◌≡◌, ◌≢◌,
}
use local_agent_cli.Base.Text.{Text, ends_with, push_head, split, starts_with}

pub split-ne-nil : (sep : ℕ) (s : Text) → split sep s ≢ []
unfolding split
split-ne-nil sep [] = λ q. cc
split-ne-nil sep (c ∷ s) = ground (arith, split-ne-nil sep s)

push_head-append : (c : ℕ) (l m : List Text) → l ≢ [] → push_head c (l ++ m) ≡ push_head c l ++ m
push_head-append c [] m h = absurd (h refl)
push_head-append c (s ∷ l) m h = refl

-- Splitting at one more separator concatenates the segments.
pub split-append : (sep : ℕ) (s t : Text) → split sep (s ++ sep ∷ t) ≡ split sep s ++ split sep t
unfolding split
split-append sep [] t = ground arith
split-append sep (c ∷ s) t =
    rw (split-append sep s t)
      (ground (arith, push_head-append c (split sep s) (split sep t) (split-ne-nil sep s)))

pub split_plain : (sep : ℕ) (s : Text) → contains s sep ≡ false → split sep s ≡ s ∷ []
unfolding split
split_plain sep [] h = refl
split_plain sep (c ∷ s) h = ground (arith, split_plain sep s)

pub starts_with_one :
    (xs ys : Text) (c : ℕ) → xs ≢ [] → starts_with (xs ++ ys) (c ∷ []) ≡ starts_with xs (c ∷ [])
unfolding starts_with
starts_with_one [] ys c h = absurd (h refl)
starts_with_one (x ∷ []) [] c h = refl
starts_with_one (x ∷ []) (y ∷ ys) c h = refl
starts_with_one (x ∷ z ∷ xs) ys c h = refl

reverse-ne-nil : (t : Text) → t ≢ [] → reverse t ≢ []
reverse-ne-nil t h q = h (sym (reverse-reverse t) ∙ ap reverse q)

-- How a text ends is how its last part ends.
pub ends_with-append :
    (s t : Text) (c : ℕ) → t ≢ [] → ends_with (s ++ t) (c ∷ []) ≡ ends_with t (c ∷ [])
unfolding ends_with
ends_with-append s t c h =
    rw (reverse-append s t) (starts_with_one (reverse t) (reverse s) c (reverse-ne-nil t h))

ends_with_last :
    (r : Text) (c : ℕ) → contains (reverse r) c ≡ false → starts_with r (c ∷ []) ≡ false
unfolding starts_with
ends_with_last [] c h = refl
ends_with_last (y ∷ r) c h =
    ground (arith, reverse-append (y ∷ []) r, contains-append (reverse r) (y ∷ []) c)

-- A text without a separator does not end with it.
pub ends_with-contains : (t : Text) (c : ℕ) → contains t c ≡ false → ends_with t (c ∷ []) ≡ false
unfolding ends_with
ends_with-contains t c h =
    ends_with_last (reverse t) c (ap (λ u. contains u c) (reverse-reverse t) ∙ h)
