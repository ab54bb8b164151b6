-- ===== src/Tests/Lists.antt =====
-- Examples of the list of include/S16/List.h.
use e_com_init.Common.{ℕ, List, [], ◌∷◌}

abbrev three : List ℕ
three = 4 ∷ 7 ∷ 9 ∷ []
