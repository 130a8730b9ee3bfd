-- ===== src/Text.antt =====
-- Rust's `str` and `String` as the list of their bytes, and the operations of the standard library
-- that the program calls on them. Every literal of the program is ASCII, so `text` gives its bytes.
pub mod Laws
pub mod Trim
pub mod Pieces
use Prim.Native.Char.{code}
use Prim.Native.String.{String}
use mathlib.Core.Option
use relaykey_backend.Base.{
  ℕ, zero, suc, ◌+◌, ◌-◌, Bool, true, false, ◌&&◌, ◌||◌, not, List, [], ◌∷◌, ◌++◌, map, Option,
  none, some, leb, ◌==◌, if◌then◌else◌, keep,
}
use mathlib.Core.List.{reverse}

abbrev pub Text : Type 0
Text = List ℕ

unfoldable pub text : String → Text
text String.[] = []
text (String.◌∷◌ c s) = code c ∷ text s

unfoldable pub text_eq : Text → Text → Bool
text_eq [] [] = true
text_eq (c ∷ s) (d ∷ t) = c == d && text_eq s t
text_eq [] (_ ∷ _) = false
text_eq (_ ∷ _) [] = false

unfoldable pub is_empty : Text → Bool
is_empty [] = true
is_empty (_ ∷ _) = false

-- `s.starts_with(p)`, called `starts_with p s`.
unfoldable pub starts_with : Text → Text → Bool
starts_with [] s = true
starts_with (c ∷ p) [] = false
starts_with (c ∷ p) (d ∷ s) = c == d && starts_with p s

unfoldable pub contains : ℕ → Text → Bool
contains c [] = false
contains c (d ∷ s) = d == c || contains c s

-- `s.strip_suffix(t)`, called `strip_suffix t s`.
unfoldable pub strip_suffix : Text → Text → Option Text
unfolding text_eq
strip_suffix t [] = if text_eq [] t then some [] else none
strip_suffix t (c ∷ s) =
    if text_eq (c ∷ s) t then some [] else Option.map (λ p. c ∷ p) (strip_suffix t s)

-- `s.find(t)`, called `find t s`: the first position.
unfoldable pub find : Text → Text → Option ℕ
unfolding starts_with
find t [] = if starts_with t [] then some 0 else none
find t (c ∷ s) = if starts_with t (c ∷ s) then some 0 else Option.map suc (find t s)

unfoldable pub push_front : ℕ → List Text → List Text
push_front c [] = (c ∷ []) ∷ []
push_front c (part ∷ parts) = (c ∷ part) ∷ parts

-- `s.split(c)`.
unfoldable pub split : ℕ → Text → List Text
unfolding push_front
split c [] = [] ∷ []
split c (d ∷ s) = if d == c then [] ∷ split c s else push_front d (split c s)

-- The part of `s.splitn(n + 1, c)` with index `n`, which no separator ends.
unfoldable pub split_rest : ℕ → ℕ → Text → Option Text
split_rest zero c s = some s
split_rest (suc n) c [] = none
split_rest (suc n) c (d ∷ s) = if d == c then split_rest n c s else split_rest (suc n) c s

unfoldable pub lower : ℕ → ℕ
lower c = if leb b'A' c && leb c b'Z' then c + 32 else c

-- `to_lowercase`, on ASCII.
unfoldable pub to_lowercase : Text → Text
unfolding lower
to_lowercase s = map lower s

-- ASCII white space, as `trim` sees it.
unfoldable pub is_space : ℕ → Bool
is_space c = c == 32 || (leb 9 c && leb c 13)

unfoldable pub trim_start : Text → Text
unfolding is_space
trim_start [] = []
trim_start (c ∷ s) = if is_space c then trim_start s else c ∷ s

unfoldable pub trim : Text → Text
unfolding trim_start
trim s = reverse (trim_start (reverse (trim_start s)))
