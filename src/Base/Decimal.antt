-- ===== src/Base/Decimal.antt =====
-- Python's `str(n)` and `f"{n:03d}"` on natural numbers, and the number that a text begins with.
use Prim.Native.Nat.{◌*◌, ◌/◌, ◌%◌, ◌-◌, suc, zero, ◌+◌, ◌<◌, ℕ}
use mathlib.Core.Path.{◌≡◌, refl}
use mathlib.Core.Logic.{inl, inr}
use mathlib.Core.Bool.{Bool, false, ◌&&◌}
use mathlib.Core.List.{append_assoc, [], ◌∷◌, ◌++◌}
use native.Mathlib.Omega.{arith}
use local_agent_cli.Base.Equality.{Bool-cases, contains, if◌then◌else◌, nat_eq}
use local_agent_cli.Base.Tests.{leb, ltb}
use local_agent_cli.Base.Lists.{contains-append, length}
use local_agent_cli.Base.Text.{Text}

-- The digits of `n` in front of `rest`, on fuel above `n`.
unfoldable pub digits_loop : ℕ → ℕ → Text → Text
digits_loop zero n rest = rest
digits_loop (suc fuel) n rest =
    let more = digits_loop fuel (n / 10) ((48 + n % 10) ∷ rest) in
    if ltb n 10 then (48 + n) ∷ rest else more

unfoldable pub decimal : ℕ → Text
unfolding digits_loop
decimal n = digits_loop (suc n) n []

abbrev pub zeros : ℕ → Text
zeros zero = []
zeros (suc n) = 48 ∷ zeros n

-- `f"{n:0{width}d}"`
unfoldable pub padded : ℕ → ℕ → Text
unfolding decimal
padded width n = zeros (width - length (decimal n)) ++ decimal n

abbrev pub is_digit : ℕ → Bool
is_digit c = leb 48 c && leb c 57

-- The number that the leading digits of a text spell, after `acc`.
unfoldable pub leading_number : ℕ → Text → ℕ
leading_number acc [] = acc
leading_number acc (c ∷ s) =
    let more = leading_number (acc * 10 + (c - 48)) s in if is_digit c then more else acc

leading_number-digits_loop :
    (fuel n : ℕ) (rest : Text)
    → n < fuel
    → leading_number 0 (digits_loop fuel n rest) ≡ leading_number n rest
unfolding leading_number digits_loop
leading_number-digits_loop zero n rest h = absurd (omega arith)
leading_number-digits_loop (suc fuel) n rest h = elim (Bool-cases (ltb n 10)) [
  | inl small ↦ ground arith
  | inr large ↦
      let ih = leading_number-digits_loop fuel (n / 10) ((48 + n % 10) ∷ rest) (ground arith) in
      ground (arith, ih)
]

digits_loop-append :
    (fuel n : ℕ) (rest s : Text) → digits_loop fuel n rest ++ s ≡ digits_loop fuel n (rest ++ s)
unfolding digits_loop
digits_loop-append zero n rest s = refl
digits_loop-append (suc fuel) n rest s =
    ground (arith, digits_loop-append fuel (n / 10) ((48 + n % 10) ∷ rest) s)

leading_number-zeros : (k : ℕ) (s : Text) → leading_number 0 (zeros k ++ s) ≡ leading_number 0 s
unfolding leading_number
leading_number-zeros zero s = refl
leading_number-zeros (suc k) s = leading_number-zeros k s

-- A padded number in front of any text: the leading digits go on from that number.
pub leading_number-padded :
    (width n : ℕ) (s : Text) → leading_number 0 (padded width n ++ s) ≡ leading_number n s
unfolding padded
leading_number-padded width n s =
    rw
      (
        append_assoc (zeros (width - length (decimal n))) (decimal n) s,
        leading_number-zeros (width - length (decimal n)) (decimal n ++ s),
        digits_loop-append (suc n) n [] s,
      )
      (leading_number-digits_loop (suc n) n s (omega arith))

contains-digits_loop :
    (fuel n : ℕ) (rest : Text) → contains (digits_loop fuel n rest) b'/' ≡ contains rest b'/'
unfolding digits_loop
contains-digits_loop zero n rest = refl
contains-digits_loop (suc fuel) n rest =
    ground (arith, contains-digits_loop fuel (n / 10) ((48 + n % 10) ∷ rest))

contains-zeros : (k : ℕ) → contains (zeros k) b'/' ≡ false
contains-zeros zero = refl
contains-zeros (suc k) = ground (arith, contains-zeros k)

-- A padded number has no slash in it.
pub contains-padded : (width n : ℕ) → contains (padded width n) b'/' ≡ false
unfolding padded
contains-padded width n =
    rw
      (
        contains-append (zeros (width - length (decimal n))) (decimal n) b'/',
        contains-zeros (width - length (decimal n)),
      )
      (contains-digits_loop (suc n) n [])
