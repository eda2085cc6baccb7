-- ===== src/Daemon/Status.antt =====
-- `str_status` of ipbench2/src/ipbenchd.py: the reply lines of the daemon.
use ipbench.Prelude.{ℕ, none, some, Option, List, [], ◌∷◌, ◌++◌, ◌==◌, if◌then◌else◌}
use ipbench.Python.Text.{Text, codes}
use ipbench.Python.Number.{decimal}
use ipbench.Python.Outcome.{Outcome, returned, raised, key_error}

-- The dict `errCodes`.
abbrev pub err_codes : List (ℕ × Text)
err_codes =
    (100, codes "IPBENCH V1.0")
    ∷ (200, codes "OK")
    ∷ (220, codes "VALID DATA")
    ∷ (221, codes "INVALID DATA")
    ∷ (222, codes "CLOSING CONTROL CONNECTION")
    ∷ (400, codes "ERROR")
    ∷ (421, codes "SERVICE NOT AVAILABLE")
    ∷ (451, codes "LOCAL PROCESSING ERROR")
    ∷ (500, codes "SYNTAX ERROR")
    ∷ []

abbrev pub name_of : ℕ → List (ℕ × Text) → Option Text
name_of c [] = none
name_of c ((d, name) ∷ table) = if c == d then some name else name_of c table

-- " ".join(msg)
abbrev pub join_words : List Text → Text
join_words [] = []
join_words (w ∷ []) = w
join_words (w ∷ v ∷ ws) = w ++ b' ' ∷ join_words (v ∷ ws)

abbrev pub status_line : ℕ → Text → List Text → Text
status_line code name [] = decimal code ++ (b' ' ∷ (name ++ b'\n' ∷ []))
status_line code name (m ∷ ms) =
    decimal code ++ (b' ' ∷ (name ++ (codes " (" ++ (join_words (m ∷ ms) ++ codes ")\n"))))

-- str_status: an unknown code is a KeyError.
unfoldable pub str_status : ℕ → List Text → Outcome Text
str_status code msg = elim (name_of code err_codes) [
  | none ↦ raised key_error
  | some name ↦ returned (status_line code name msg)
]
