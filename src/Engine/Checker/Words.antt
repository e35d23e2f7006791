-- ===== src/Engine/Checker/Words.antt =====
-- checker.go: the four patterns that a text has to match whole before it goes into a command, and
-- what the checks use of Go's `strings` and `fmt`.
use mathlib.Core.Logic.{dite}
use mathlib.Core.WellFounded.{Acc}
use native.Mathlib.Decide.{dec_lt}
use cledyu.Base.{
  ℕ, zero, suc, ◌+◌, ◌/◌, ◌%◌, ◌<◌, Bool, true, false, ◌&&◌, ◌||◌, List, [], ◌∷◌, codes, leb, ◌==◌,
  all, if◌then◌else◌, arith, Option, none, some,
}
use cledyu.Engine.{ℤ, pos, negsuc, Text}

abbrev pub is_empty : Text → Bool
is_empty [] = true
is_empty (c ∷ s) = false

unfoldable pub alnum : ℕ → Bool
alnum c = (leb b'a' c && leb c b'z') || (leb b'A' c && leb c b'Z') || (leb b'0' c && leb c b'9')

abbrev pub one_of : List ℕ → ℕ → Bool
one_of [] c = false
one_of (d ∷ ds) c = c == d || one_of ds c

-- [a-zA-Z0-9/_.\-]
unfoldable pub path_char : ℕ → Bool
unfolding alnum
path_char c = alnum c || one_of (codes "/_.-") c

-- [a-zA-Z0-9._\-]
unfoldable pub name_char : ℕ → Bool
unfolding alnum
name_char c = alnum c || one_of (codes "._-") c

-- [a-zA-Z0-9/._:\-?=&#]
unfoldable pub url_char : ℕ → Bool
unfolding alnum
url_char c = alnum c || one_of (codes "/._:-?=&#") c

-- [a-zA-Z0-9 /._\-=:@%"']
unfoldable pub command_char : ℕ → Bool
unfolding alnum
command_char c = alnum c || one_of (codes " /._-=:@%\"'") c

-- One character of the class at least, and no other.
abbrev pub some_of : (ℕ → Bool) → Text → Bool
some_of p [] = false
some_of p (c ∷ s) = all p (c ∷ s)

abbrev pub strip_prefix : Text → Text → Option Text
strip_prefix [] s = some s
strip_prefix (c ∷ p) [] = none
strip_prefix (c ∷ p) (d ∷ s) = if c == d then strip_prefix p s else none

abbrev pub behind : Option Text → (ℕ → Bool) → Bool
behind none p = false
behind (some s) p = some_of p s

-- safePathRe, safeNameRe, safeURLRe and safeCommandRe
unfoldable pub safe_path : Text → Bool
safe_path s = behind (strip_prefix (codes "/") s) path_char

unfoldable pub safe_name : Text → Bool
safe_name s = some_of name_char s

unfoldable pub safe_url : Text → Bool
safe_url s =
    behind (strip_prefix (codes "http://") s) url_char
    || behind (strip_prefix (codes "https://") s) url_char

unfoldable pub safe_command : Text → Bool
safe_command s = some_of command_char s

abbrev pub starts_with : Text → Text → Bool
starts_with s [] = true
starts_with [] (d ∷ p) = false
starts_with (c ∷ s) (d ∷ p) = c == d && starts_with s p

-- strings.Contains
unfoldable pub contains : Text → Text → Bool
contains [] p = starts_with [] p
contains (c ∷ s) p = starts_with (c ∷ s) p || contains s p

-- unicode.IsSpace
unfoldable pub is_space : ℕ → Bool
is_space c =
    (leb 9 c && leb c 13)
    || c == 32
    || c == 0x85
    || c == 0xa0
    || c == 0x1680
    || (leb 0x2000 c && leb c 0x200a)
    || c == 0x2028
    || c == 0x2029
    || c == 0x202f
    || c == 0x205f
    || c == 0x3000

abbrev pub trim_left : Text → Text
trim_left [] = []
trim_left (c ∷ s) = let rest = trim_left s in if is_space c then rest else c ∷ s

-- A space goes where nothing but spaces follows.
abbrev pub trim_right : Text → Text
trim_right [] = []
trim_right (c ∷ s) = let rest = trim_right s in if is_space c && is_empty rest then [] else c ∷ rest

-- strings.TrimSpace
unfoldable pub trim_space : Text → Text
unfolding is_space
trim_space s = trim_right (trim_left s)

unfoldable pub text_eq : Text → Text → Bool
text_eq [] [] = true
text_eq [] (d ∷ t) = false
text_eq (c ∷ s) [] = false
text_eq (c ∷ s) (d ∷ t) = c == d && text_eq s t

-- The decimal digits of a number, in front of a text.
digits_acc : (n : ℕ) → Acc ◌<◌ n → Text → Text
digits_acc n (Acc.intro _ smaller) s =
    dite (dec_lt n 10) (λ h. (b'0' + n) ∷ s)
      (λ h. digits_acc (n / 10) (smaller (n / 10) (omega arith)) ((b'0' + n % 10) ∷ s))

Acc-below : (k n : ℕ) → n < k → Acc ◌<◌ n
Acc-below zero n h = elim h [ ]
Acc-below (suc k) n h = Acc.intro n (λ m hm. Acc-below k m (omega arith))

unfoldable pub digits : ℕ → Text
unfolding digits_acc Acc-below dec_lt
digits n = digits_acc n (Acc-below (suc n) n (omega arith)) []

-- fmt's `%d`
unfoldable pub decimal : ℤ → Text
unfolding digits
decimal (pos n) = digits n
decimal (negsuc n) = b'-' ∷ digits (suc n)
