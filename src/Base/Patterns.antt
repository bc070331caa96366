-- ===== src/Base/Patterns.antt =====
-- The fragments of `re.fullmatch` that the runtime uses: a sequence of character classes, and a
-- class repeated between two bounds. Texts are walked by code points.
use Prim.Native.Char.{code}
use Prim.Native.Nat.{ℕ}
use Prim.Native.String.{String}
use mathlib.Core.Bool.{Bool, true, false, not, ◌&&◌, ◌||◌}
use mathlib.Core.Option.{Option, none, some}
use mathlib.Core.List.{List, [], ◌∷◌}
use mola_core.Base.Tests.{leb, ◌==◌, if◌then◌else◌}
use mola_core.Base.Lists.{length, all}

abbrev pub codes : String → List ℕ
codes String.[] = []
codes (String.◌∷◌ c s) = code c ∷ codes s

abbrev pub Class : Type 0
Class = ℕ → Bool

abbrev pub between : ℕ → ℕ → Class
between lo hi c = leb lo c && leb c hi

abbrev pub digit : Class
digit = between 48 57

abbrev pub lower_hex : Class
lower_hex c = digit c || between 97 102 c

abbrev pub hex : Class
hex c = lower_hex c || between 65 70 c

abbrev pub letter : Class
letter c = between 97 122 c || between 65 90 c

abbrev pub one : ℕ → Class
one k c = c == k

-- [A-Za-z0-9_-]
abbrev pub word_or_dash : Class
word_or_dash c = letter c || digit c || c == 95 || c == 45

-- What `str.split` and `\s` take as space, of ASCII.
abbrev pub is_space : Class
is_space c = between 9 13 c || between 28 32 c

-- The pieces of a `re.search`: a literal, `\s+`, `\b` after a word, and any place of a text.
abbrev pub literal : List ℕ → List ℕ → Option (List ℕ)
literal [] cs = some cs
literal (k ∷ ks) [] = none
literal (k ∷ ks) (c ∷ cs) = if k == c then literal ks cs else none

abbrev pub past_spaces : List ℕ → List ℕ
past_spaces [] = []
past_spaces (c ∷ cs) = if is_space c then past_spaces cs else c ∷ cs

abbrev pub some_spaces : List ℕ → Option (List ℕ)
some_spaces [] = none
some_spaces (c ∷ cs) = if is_space c then some (past_spaces cs) else none

abbrev pub at_word_end : List ℕ → Bool
at_word_end [] = true
at_word_end (c ∷ cs) = not (letter c || digit c || c == 95)

abbrev pub search : (List ℕ → Bool) → List ℕ → Bool
search p [] = p []
search p (c ∷ cs) = p (c ∷ cs) || search p cs

-- A label, spaces, and a value that ends a word; the rest must have `p`.
abbrev pub labelled : List ℕ → List ℕ → (List ℕ → Bool) → List ℕ → Bool
labelled label value p cs = elim (literal label cs) [
  | none ↦ false
  | some rest ↦ elim (some_spaces rest) [
    | none ↦ false
    | some rest' ↦ elim (literal value rest') [ none ↦ false | some end ↦ at_word_end end && p end ]
  ]
]

abbrev pub times {ℓ} : {A : Type ℓ} → ℕ → A → List A
times ℕ.zero x = []
times (ℕ.suc n) x = x ∷ times n x

-- `re.fullmatch` of classes in a row.
abbrev pub match_row : List Class → List ℕ → Bool
match_row [] [] = true
match_row [] (c ∷ cs) = false
match_row (p ∷ ps) [] = false
match_row (p ∷ ps) (c ∷ cs) = p c && match_row ps cs

-- `re.fullmatch` of `class{lo,hi}`.
abbrev pub match_run : Class → ℕ → ℕ → List ℕ → Bool
match_run p lo hi cs = leb lo (length cs) && leb (length cs) hi && all p cs
