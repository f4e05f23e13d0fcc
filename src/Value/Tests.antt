-- ===== src/Value/Tests.antt =====
-- Words and strings of src/value.c.
use streem.Base.{List, [], ◌∷◌, ℕ}

-- `a`, a bell, and an escape.
abbrev text : List ℕ
text = 97 ∷ 7 ∷ 27 ∷ []
