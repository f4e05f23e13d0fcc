-- ===== src/Latch/Tests.antt =====
-- Uses of a latch of src/latch.c.
use streem.Base.{◌≡◌, List, [], ◌∷◌, length, drop, ℕ}
use streem.Value.{nil, int}
use streem.Latch.{Use, push, receive, use_all, latch_new}
use streem.Latch.Pairing.{zip, pushed, received, use_all-zip}

abbrev some_uses : List (Use ℕ)
some_uses =
    push (int 1)
    ∷ push (int 2)
    ∷ receive 10
    ∷ receive 11
    ∷ receive 12
    ∷ push (int 3)
    ∷ push nil
    ∷ []

use_all-zip_example :
    ((use_all latch_new some_uses).1 ≡ zip (received some_uses) (pushed some_uses))
    × ((use_all latch_new some_uses).0.dq ≡ drop (length (received some_uses)) (pushed some_uses))
    × ((use_all latch_new some_uses).0.rq ≡ drop (length (pushed some_uses)) (received some_uses))
use_all-zip_example = use_all-zip some_uses
