-- ===== src/Controller/ReturnCode.antt =====
-- `_parse_return_code` of ipbench2/src/ipbench.py.
use ipbench.Prelude.{none, some, [], ℤ, pos, negsuc, succ}
use ipbench.Python.Text.{Text, find, slice, slice_from, strip}
use ipbench.Python.Number.{int}
use ipbench.Python.Outcome.{Outcome, returned, raised, value_error}

-- The dict `status`.
pub record Status : Type 0 where
  pub code : ℤ
  pub str : Text
  pub msg : Text

-- The fields behind the code, by the position of the first bracket, which is -1 where there is none.
abbrev pub status_of : ℤ → Text → ℤ → Status
status_of code text (negsuc n) = record {
  code = code;
  str = strip (slice_from (pos 4) text);
  msg = [];
}
status_of code text (pos fence1) = record {
  code = code;
  str = strip (slice (pos 4) (pos fence1) text);
  msg = strip (slice (succ (pos fence1)) (find b')' text) text);
}

-- `int` of the first three characters may be a ValueError.
unfoldable pub parse_return_code : Text → Outcome Status
parse_return_code text = elim (int (slice (pos 0) (pos 3) text)) [
  | none ↦ raised value_error
  | some code ↦ returned (status_of code text (find b'(' text))
]
