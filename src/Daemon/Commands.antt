-- ===== src/Daemon/Commands.antt =====
-- The patterns of ipbench2/src/ipbenchd.py that a command line is matched with, and the arguments
-- of SETUP.
use ipbench.Prelude.{
  ℕ, ℤ, pos, negsuc, Bool, not, ◌||◌, Option, none, some, List, [], ◌∷◌, ◌==◌, if◌then◌else◌,
}
use ipbench.Python.Text.{Text, codes, text_eq, is_space, is_word, span, split_pair, slice}
use ipbench.Python.Number.{int}
use ipbench.Python.Outcome.{and_then, Outcome, returned, raised, value_error}

-- What a pattern's group matched; no character is no match.
abbrev pub nonempty : Text → Option Text
nonempty [] = none
nonempty (c ∷ s) = some (c ∷ s)

-- re.match(r"\S*", line).group(0)
unfoldable pub match_any : Text → Text
unfolding span is_space
match_any line = (span (λ c. not (is_space c)) line).0

-- re.match(r"(\S+)", line)
unfoldable pub match_not_spaces : Text → Option Text
unfolding span is_space
match_not_spaces line = nonempty (span (λ c. not (is_space c)) line).0

-- re.match(r"(\w+)", line)
unfoldable pub match_word : Text → Option Text
unfolding span is_word
match_word line = nonempty (span is_word line).0

-- Both groups, from the word and from what follows it.
abbrev pub both_groups : (ℕ → Bool) → Text → Text → Option (Text × Text)
both_groups test [] rest = none
both_groups test (c ∷ word) [] = none
both_groups test (c ∷ word) (d ∷ rest) =
    if d == b' '
    then (elim (span test rest).0 [ [] ↦ none | e ∷ arg ↦ some (c ∷ word, e ∷ arg) ])
    else none

-- A word, one space, and one or more characters of a class. No word character is a space, so the
-- match never backtracks.
unfoldable pub match_command : (ℕ → Bool) → Text → Option (Text × Text)
unfolding span is_word
match_command test line = let (word, rest) = span is_word line in both_groups test word rest

-- [\s\w-]
unfoldable pub is_plugin_char : ℕ → Bool
unfolding is_space is_word
is_plugin_char c = is_space c || is_word c || c == b'-'

-- re.match(r"(\w+) ([\s\w-]+)", line)
unfoldable pub match_load : Text → Option (Text × Text)
unfolding match_command is_plugin_char
match_load = match_command is_plugin_char

-- re.match(r"(\w+) (..*)", line); `.` is any character but a line feed
unfoldable pub match_setup : Text → Option (Text × Text)
unfolding match_command
match_setup = match_command (λ c. not (c == b'\n'))

-- The local variables that the loop over the arguments assigns.
pub record SetupArgs : Type 0 where
  pub test_target : Option Text
  pub test_port : Option ℤ
  pub test_args : Option Text

abbrev pub unassigned : SetupArgs
unassigned = record { test_target = none; test_port = none; test_args = none }

abbrev pub assign_port : Option ℤ → SetupArgs → Outcome SetupArgs
assign_port none a = raised value_error
assign_port (some p) a = returned (record a { test_port = some p })

-- The body of the loop for an argument `subcmd::val`.
unfoldable pub assign : Text → Text → SetupArgs → Outcome SetupArgs
unfolding int
assign subcmd val a =
    if text_eq subcmd (codes "target")
    then returned (record a { test_target = some val })
    else if text_eq subcmd (codes "port")
    then assign_port (int val) a
    else if text_eq subcmd (codes "args")
    then returned (record a { test_args = some (slice (pos 1) (negsuc 0) val) })
    else returned a

-- `(subcmd, val) = arg.split("::")`: other than two parts are a ValueError.
unfoldable pub assign_parts : List Text → SetupArgs → Outcome SetupArgs
unfolding assign
assign_parts (subcmd ∷ val ∷ []) a = assign subcmd val a
assign_parts _ a = raised value_error

unfoldable pub assign_all : List Text → SetupArgs → Outcome SetupArgs
unfolding assign_parts split_pair
assign_all [] a = returned a
assign_all (arg ∷ rest) a = and_then (assign_parts (split_pair b':' arg) a) (λ b. assign_all rest b)

-- for arg in arglist.split("||")
unfoldable pub setup_args : Text → Outcome SetupArgs
unfolding assign_all split_pair
setup_args arglist = assign_all (split_pair b'|' arglist) unassigned
