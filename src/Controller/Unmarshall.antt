-- ===== src/Controller/Unmarshall.antt =====
-- `unmarshall` of `IpbenchTestClient` in ipbench2/src/ipbench.py.
pub mod Pieces
use ipbench.Prelude.{
  ℕ, zero, suc, ◌-◌, Bool, true, false, [], ◌∷◌, ◌++◌, ℤ, pos, negsuc, is, succ, leb, if◌then◌else◌,
  length,
}
use ipbench.Python.Text.{
  Text, Bytes, codes, find, slice_from, slice_to, span, is_digit, starts_with,
}
use ipbench.Python.Number.{int}
use ipbench.Python.Codec.{decode_ignore, decode_ascii_ignore}
use ipbench.Python.Outcome.{
  Outcome, returned, raised, stalled, ipbench_error, attribute_error, value_error, or_raise,
}
use ipbench.Python.Exec.{Exec, pure, lift, ◌>>=◌}
use ipbench.Controller.Socket.{Peer, recv}
use ipbench.Controller.ReturnCode.{Status, parse_return_code}

-- 220 is valid data, 221 is data flagged as invalid, and any other code is an error.
abbrev pub validity : Status → Outcome Bool
validity s =
    if is s.code 220
    then returned true
    else if is s.code 221
    then returned false
    else raised (ipbench_error (codes "Test failed  : " ++ s.msg))

-- re.match(r"Content-length: (\d+)", line).group(1), where no match is an AttributeError.
abbrev pub digits_of : Text → Outcome Text
digits_of [] = raised attribute_error
digits_of (d ∷ ds) = returned (d ∷ ds)

abbrev pub content_label : Text
content_label = codes "Content-length: "

unfoldable pub match_length : Text → Outcome Text
unfolding starts_with span
match_length line =
    if starts_with line content_label
    then digits_of (span is_digit (slice_from (pos 16) line)).0
    else raised attribute_error

-- len(client_data) != content_length
abbrev pub reached : ℤ → ℕ → Bool
reached content_length n = is content_length n

-- content_length - len(client_data)
abbrev pub missing : ℤ → ℕ → ℤ
missing (pos c) n = if leb n c then pos (c - n) else negsuc (n - c - 1)
missing (negsuc c) n = negsuc c

module _ {T : Type 0} where
  -- The loop that reads the rest of the content, for at most so many rounds.
  unfoldable pub read_rest : ℕ → ℤ → Bytes → Exec (Peer T) Bytes
  read_rest zero content_length client_data = lift stalled
  read_rest (suc rounds) content_length client_data =
      elim (reached content_length (length client_data)) [
        | true ↦ pure client_data
        | false ↦ (do
          newdata ← recv (missing content_length (length client_data))
          read_rest rounds content_length (client_data ++ newdata))
      ]

  -- The status line, read from the first piece: the validity, and what follows the line.
  unfoldable pub read_status : Exec (Peer T) (Bool × Bytes)
  read_status = do
    buffer ← recv (pos 128)
    let statusline = decode_ignore buffer
    let newline = find b'\n' statusline
    status ← lift (parse_return_code (slice_to newline statusline))
    valid ← lift (validity status)
    pure (valid, slice_from (succ newline) buffer)

  -- The line with the length, from what is left of the first piece and the second piece: the
  -- length, and the content that follows the line.
  unfoldable pub read_length : Bytes → Exec (Peer T) (ℤ × Bytes)
  read_length buffer = do
    piece ← recv (pos 128)
    let initial_content = buffer ++ piece
    let clenline = decode_ascii_ignore initial_content
    let newline = find b'\n' clenline
    group ← lift (match_length (slice_to newline clenline))
    content_length ← lift (or_raise value_error (int group))
    pure (content_length, slice_from (succ newline) initial_content)

  -- `deliver` is `call_test_unmarshall`, and `rounds` bounds the loop.
  unfoldable pub unmarshall :
      ℕ → (Bytes → Bool → Exec (Peer T) (Unit {0})) → Exec (Peer T) (Unit {0})
  unfolding read_status read_length read_rest
  unmarshall rounds deliver = do
    (valid, buffer) ← read_status
    (content_length, initial) ← read_length buffer
    client_data ← read_rest rounds content_length initial
    deliver client_data valid
