-- ===== src/Base/Text.antt =====
-- Python's `str` as the list of its code points, and the `str` methods that the program uses.
use Prim.Native.Nat.{ℕ}
use Prim.Native.Char.{code}
use Prim.Native.String.{String}
use mathlib.Core.Bool.{Bool, true, false, ◌||◌, ◌&&◌}
use mathlib.Core.List.{List, [], ◌∷◌, ◌++◌, reverse}
use local_agent_cli.Base.Equality.{contains, if◌then◌else◌, nat_eq, ◌==◌}

abbrev pub Text : Type 0
Text = List ℕ

-- A literal. Shut in proofs, so that messages stay short.
unfoldable pub codes : String → Text
codes String.[] = []
codes (String.◌∷◌ c s) = code c ∷ codes s

-- `s.startswith(prefix)`
unfoldable pub starts_with : Text → Text → Bool
starts_with s [] = true
starts_with [] (p ∷ prefix) = false
starts_with (c ∷ s) (p ∷ prefix) = c == p && starts_with s prefix

-- `s.endswith(suffix)`
unfoldable pub ends_with : Text → Text → Bool
unfolding starts_with
ends_with s suffix = starts_with (reverse s) (reverse suffix)

-- `needle in s`
unfoldable pub has_substring : Text → Text → Bool
unfolding starts_with
has_substring [] needle = starts_with [] needle
has_substring (c ∷ s) needle = starts_with (c ∷ s) needle || has_substring s needle

-- `s.lstrip(chars)`, `s.strip(chars)`
unfoldable pub lstrip : List ℕ → Text → Text
lstrip chars [] = []
lstrip chars (c ∷ s) = let rest = lstrip chars s in if contains chars c then rest else c ∷ s

unfoldable pub strip : List ℕ → Text → Text
unfolding lstrip
strip chars s = reverse (lstrip chars (reverse (lstrip chars s)))

-- `s.replace(old, new)` at one character
unfoldable pub replace : ℕ → ℕ → Text → Text
replace old new [] = []
replace old new (c ∷ s) = (if c == old then new else c) ∷ replace old new s

-- `s.split(sep)` at one character: never empty
abbrev pub push_head : ℕ → List Text → List Text
push_head c [] = (c ∷ []) ∷ []
push_head c (s ∷ rest) = (c ∷ s) ∷ rest

unfoldable pub split : ℕ → Text → List Text
split sep [] = [] ∷ []
split sep (c ∷ s) = let rest = split sep s in if c == sep then [] ∷ rest else push_head c rest

-- `sep.join(parts)`
unfoldable pub join : Text → List Text → Text
join sep [] = []
join sep (s ∷ []) = s
join sep (s ∷ t ∷ rest) = s ++ sep ++ join sep (t ∷ rest)

-- What `str.isspace` holds of: the characters that `s.strip()` takes away.
abbrev pub whitespace : List ℕ
whitespace =
    9 ∷ 10 ∷ 11 ∷ 12 ∷ 13 ∷ 28 ∷ 29 ∷ 30 ∷ 31 ∷ 32 ∷ 133 ∷ 160 ∷ 5760 ∷ 8192 ∷ 8193 ∷ 8194 ∷ 8195
    ∷ 8196 ∷ 8197 ∷ 8198 ∷ 8199 ∷ 8200 ∷ 8201 ∷ 8202 ∷ 8232 ∷ 8233 ∷ 8239 ∷ 8287 ∷ 12288 ∷ []
