-- ===== src/Prelude/Text.antt =====
-- Texts: the methods of Python's `str` that the program calls, and lists of texts.
pub mod Membership
use Prim.Native.Nat.{ℕ, suc}
use Prim.Native.Char.{Char, code}
use Prim.Native.String.{String, compare}
use mathlib.Core.Bool.{Bool, true, false, ◌&&◌, ◌||◌}
use mathlib.Core.List.{List, [], ◌∷◌}
use mathlib.Core.Option.{Option, none, some}
pub use text.Mathlib.Text.{◌==◌ as str_eq}
use text.Mathlib.Text.{find?, is_le, starts_with}
use order_agent.Prelude.Tests.{leb, ◌==◌, if◌then◌else◌, is_some}

-- `part in whole`
abbrev pub is_in : String → String → Bool
is_in part whole = is_some (find? whole part)

-- `len(value)`
abbrev pub chars : String → ℕ
chars String.[] = 0
chars (String.◌∷◌ c s) = suc (chars s)

-- `whole.find(part)`, in characters; the empty part is found at 0.
unfoldable pub position : String → String → Option ℕ
position part String.[] = if starts_with "" part then some 0 else none
position part (String.◌∷◌ c s) =
    let rest = position part s in
    if starts_with (String.◌∷◌ c s) part
    then some 0
    else elim rest [ none ↦ none | some n ↦ some (suc n) ]

-- `value in values`
abbrev pub member : String → List String → Bool
member s [] = false
member s (x ∷ xs) = str_eq x s || member s xs

-- The characters that `str.isspace` accepts.
abbrev pub is_space_code : ℕ → Bool
is_space_code c =
    leb 9 c && leb c 13
    || leb 28 c && leb c 32
    || c == 133
    || c == 160
    || c == 5760
    || leb 8192 c && leb c 8202
    || c == 8232
    || c == 8233
    || c == 8239
    || c == 8287
    || c == 12288

is_space : Char → Bool
is_space c = is_space_code (code c)

lstrip : String → String
lstrip String.[] = ""
lstrip (String.◌∷◌ c s) = if is_space c then lstrip s else String.◌∷◌ c s

-- Drops `c` before an empty rest if it is a space.
abbrev drop_last_space : Char → String → String
drop_last_space c String.[] = if is_space c then "" else String.◌∷◌ c ""
drop_last_space c (String.◌∷◌ d s) = String.◌∷◌ c (String.◌∷◌ d s)

rstrip : String → String
rstrip String.[] = ""
rstrip (String.◌∷◌ c s) = drop_last_space c (rstrip s)

-- `value.strip()`
unfoldable pub strip : String → String
unfolding lstrip rstrip is_space
strip s = lstrip (rstrip s)

abbrev push_first : Char → List String → List String
push_first c [] = String.◌∷◌ c "" ∷ []
push_first c (s ∷ ss) = String.◌∷◌ c s ∷ ss

-- `value.split(sep)` at a separator of one character, given by its code.
unfoldable pub split : ℕ → String → List String
split sep String.[] = "" ∷ []
split sep (String.◌∷◌ c s) =
    let rest = split sep s in if code c == sep then "" ∷ rest else push_first c rest

unfoldable pub append_text : String → String → String
append_text String.[] t = t
append_text (String.◌∷◌ c s) t = String.◌∷◌ c (append_text s t)

-- `sep.join(values)`
unfoldable pub join : String → List String → String
unfolding append_text
join sep [] = ""
join sep (s ∷ []) = s
join sep (s ∷ t ∷ ss) = append_text s (append_text sep (join sep (t ∷ ss)))

abbrev insert_sorted : String → List String → List String
insert_sorted s [] = s ∷ []
insert_sorted s (x ∷ xs) = if is_le (compare s x) then s ∷ x ∷ xs else x ∷ insert_sorted s xs

-- `sorted(values)`
unfoldable pub sorted : List String → List String
sorted [] = []
sorted (x ∷ xs) = insert_sorted x (sorted xs)

abbrev pub eq_texts : List String → List String → Bool
eq_texts [] [] = true
eq_texts (x ∷ xs) (y ∷ ys) = str_eq x y && eq_texts xs ys
eq_texts _ _ = false

abbrev pub eq_option : Option String → Option String → Bool
eq_option none none = true
eq_option (some a) (some b) = str_eq a b
eq_option _ _ = false

-- The later entries that differ from one that was met: `dict.fromkeys` keeps first occurrences.
abbrev unique_from : List String → List String → List String
unique_from seen [] = []
unique_from seen (x ∷ xs) =
    let rest = unique_from seen xs in
    let fresh = x ∷ unique_from (x ∷ seen) xs in if member x seen then rest else fresh

-- `list(dict.fromkeys(values))`
abbrev pub unique : List String → List String
unique xs = unique_from [] xs
