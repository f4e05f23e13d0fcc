-- ===== src/Text/Tests.antt =====
-- Strings of src/string.c.
use streem.Base.{length, ℕ, none, some, List, [], ◌∷◌, ◌≡◌, refl, if◌then◌else◌, ◌==◌, false}
use streem.Text.{str_split, split_pieces}
use streem.Text.Intern.{Ref, foreign, owned, StrMem, strm_str_eq}
use streem.Text.Split.{join, Pieces, str_split-join, length-str_split}

-- `a,b` at a comma
abbrev text : List ℕ
text = 97 ∷ 44 ∷ 98 ∷ []

abbrev pieces : List (List ℕ)
pieces = (97 ∷ []) ∷ (98 ∷ []) ∷ []

splits : (str_split text (44 ∷ [])).1 ≡ some pieces
unfolding split_pieces
splits = refl

str_split-join_example :
    (ps : List (List ℕ)) × ((str_split text (44 ∷ [])).1 ≡ some ps)
    × (join 44 ps ≡ text)
    × Pieces 44 ps
str_split-join_example = str_split-join 44 text refl

length-str_split_example : length pieces ≡ (str_split text (44 ∷ [])).0
length-str_split_example = length-str_split text (44 ∷ []) pieces splits

-- `aaaaaa` at `aa` has a string whose length is negative.
overlapping : (str_split (97 ∷ 97 ∷ 97 ∷ 97 ∷ 97 ∷ 97 ∷ []) (97 ∷ 97 ∷ [])).1 ≡ none
unfolding split_pieces
overlapping = refl

-- `a,` at a comma stays whole.
at_the_end : (str_split (97 ∷ 44 ∷ []) (44 ∷ [])).1 ≡ some ((97 ∷ 44 ∷ []) ∷ [])
unfolding split_pieces
at_the_end = refl

-- `streams`, from a buffer and from the program's own data, with nothing interned yet.
abbrev word : List ℕ
word = 115 ∷ 116 ∷ 114 ∷ 101 ∷ 97 ∷ 109 ∷ 115 ∷ []

abbrev no_names : StrMem (List (List ℕ × Ref))
no_names = record { table = []; next = 0; bytes = λ a. [] }

abbrev after_word : StrMem (List (List ℕ × Ref))
after_word = record {
  table = (word, owned 0) ∷ [];
  next = 1;
  bytes = λ a. if a == 0 then word else [];
}

-- Two strings that point to the same bytes in different places are not interned, and are different.
foreign_strings :
    strm_str_eq (record after_word { next = 2; bytes = λ a. word }) (foreign 0) (foreign 1) ≡ false
unfolding strm_str_eq
foreign_strings = refl
