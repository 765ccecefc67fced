-- ===== src/Rectab/Examples.antt =====
-- The theorems on the table of ic35sync.c at concrete tables.
use ic35link.Base.{ℕ, none, some, [], ◌∷◌}
use ic35link.Rectab.{Table, RecOp, noact, update}

abbrev noted : ℕ → RecOp
noted r = record { rec = r; op = noact; pim = none }

-- The entry in the middle was taken out.
abbrev table : Table
table = some (noted 1) ∷ none ∷ some (noted 3) ∷ []

abbrev changed : RecOp
changed = record { rec = 2; op = update; pim = some 9 }
