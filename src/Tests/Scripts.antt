-- ===== src/Tests/Scripts.antt =====
-- The filter for a log at concrete lines.
use ipbench.Prelude.{◌≡◌, List, [], ◌∷◌, ◌++◌, replicate}
use ipbench.Python.Text.{Text, codes, starts_with}
use ipbench.Scripts.Ununmarshall.{cleaned, cleaned_lem, header_line, has_sub, is_noise}

abbrev log : List Text
log =
    replicate 9 (codes "start\n")
    ++ (codes "1,2,3\n" ∷ codes "[unmarshall] client\n" ∷ codes "4,5,6\n" ∷ [])

cleaned_lem_example : cleaned log ≡ header_line ∷ codes "1,2,3\n" ∷ codes "4,5,6\n" ∷ []
unfolding is_noise has_sub starts_with
cleaned_lem_example = cleaned_lem log
