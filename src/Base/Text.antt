-- ===== src/Base/Text.antt =====
-- Texts as the program tests them: truth, `lower`, `in`.
use Prim.Native.Nat.{ℕ, ◌+◌, ◌-◌, ◌*◌}
use Prim.Native.Char.{code}
use Prim.Native.String.{String}
use mathlib.Core.Bool.{Bool, true, false, ◌&&◌, ◌||◌}
use mathlib.Core.List.{List, [], ◌∷◌, ◌++◌}
use mathlib.Core.Option.{Option, none, some}
use nuclei_dashboard.Base.Tests.{leb, ◌==◌, if◌then◌else◌}

-- The code points of a text.
abbrev pub codes : String → List ℕ
codes String.[] = []
codes (String.◌∷◌ c s) = code c ∷ codes s

-- `bool(text)` for a text that may be None.
abbrev pub is_truthy : Option String → Bool
is_truthy none = false
is_truthy (some String.[]) = false
is_truthy (some (String.◌∷◌ c s)) = true

-- `lower()` on the letters of ASCII.
abbrev pub lower_code : ℕ → ℕ
lower_code c = if leb b'A' c && leb c b'Z' then c + 32 else c

abbrev pub starts_with : List ℕ → List ℕ → Bool
starts_with [] text = true
starts_with (c ∷ word) [] = false
starts_with (c ∷ word) (d ∷ text) = c == d && starts_with word text

-- `word in text`
abbrev pub is_in : List ℕ → List ℕ → Bool
is_in word [] = starts_with word []
is_in word (c ∷ text) = starts_with word (c ∷ text) || is_in word text

-- A text as its code points.
abbrev pub Text : Type 0
Text = List ℕ

-- `lower()` of a text
abbrev pub lower : Text → Text
lower [] = []
lower (c ∷ cs) = lower_code c ∷ lower cs

-- `a == b` on texts
abbrev pub same_text : Text → Text → Bool
same_text [] [] = true
same_text [] (d ∷ ds) = false
same_text (c ∷ cs) [] = false
same_text (c ∷ cs) (d ∷ ds) = c == d && same_text cs ds

-- `text in {…}`, the texts of the set in any order
abbrev pub one_of : List String → Text → Bool
one_of [] text = false
one_of (name ∷ names) text = same_text (codes name) text || one_of names text

abbrev pub is_empty : Text → Bool
is_empty [] = true
is_empty (c ∷ cs) = false

-- `c.isspace()` on the characters of ASCII
abbrev pub is_space : ℕ → Bool
is_space c = (leb 9 c && leb c 13) || (leb 28 c && leb c 32)

-- `text.lstrip`
abbrev pub drop_while : (ℕ → Bool) → Text → Text
drop_while test [] = []
drop_while test (c ∷ cs) = let rest = drop_while test cs in if test c then rest else c ∷ cs

-- `text.rstrip`
abbrev pub drop_trailing : (ℕ → Bool) → Text → Text
drop_trailing test [] = []
drop_trailing test (c ∷ cs) =
    let rest = drop_trailing test cs in if is_empty rest && test c then [] else c ∷ rest

-- `text.strip()`
abbrev pub strip : Text → Text
strip text = drop_trailing is_space (drop_while is_space text)

abbrev with_word : Text → List Text → List Text
with_word [] texts = texts
with_word (c ∷ cs) texts = (c ∷ cs) ∷ texts

-- The first word, which is empty after a space, and the words behind it.
abbrev split_first : Text → Text × List Text
split_first [] = ([], [])
split_first (c ∷ cs) =
    let rest = split_first cs in
    if is_space c then ([], with_word rest.0 rest.1) else (c ∷ rest.0, rest.1)

-- `text.split()`
abbrev pub split_words : Text → List Text
split_words text = let r = split_first text in with_word r.0 r.1

-- `" ".join(texts)`
abbrev pub join_words : List Text → Text
join_words [] = []
join_words (w ∷ []) = w
join_words (w ∷ v ∷ texts) = w ++ (32 ∷ join_words (v ∷ texts))

-- `text.split(sep)` for a single character: the first part, and the parts behind it.
abbrev pub split_on : ℕ → Text → Text × List Text
split_on sep [] = ([], [])
split_on sep (c ∷ cs) =
    let rest = split_on sep cs in if c == sep then ([], rest.0 ∷ rest.1) else (c ∷ rest.0, rest.1)

-- `text.split(sep, 1)` where the separator occurs.
abbrev pub cut : ℕ → Text → Option (Text × Text)
cut sep [] = none
cut sep (c ∷ cs) =
    let rest = cut sep cs in
    if c == sep then some ([], cs) else elim rest [ none ↦ none | some r ↦ some (c ∷ r.0, r.1) ]

abbrev all_digits : Text → Bool
all_digits [] = true
all_digits (c ∷ cs) = (leb b'0' c && leb c b'9') && all_digits cs

-- `text.isdigit()` on the characters of ASCII
abbrev pub is_digits : Text → Bool
is_digits [] = false
is_digits (c ∷ cs) = all_digits (c ∷ cs)

abbrev number_from : ℕ → Text → ℕ
number_from n [] = n
number_from n (c ∷ cs) = number_from (n * 10 + (c - b'0')) cs

-- `int(text)` of digits
abbrev pub number_of : Text → ℕ
number_of text = number_from 0 text
