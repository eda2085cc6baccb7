-- ===== src/Controller/Unmarshall/Pieces.antt =====
-- `unmarshall` puts the content together from the pieces in which it arrives.
use ipbench.Prelude.{
  ℕ, zero, suc, ◌+◌, ◌-◌, ◌≤◌, ◌<◌, ◌≡◌, ◌≢◌, refl, sym, ap, ◌∙◌, Bool, true, false, List, [], ◌∷◌,
  ◌++◌, append_assoc, append-nil, arith, pos, is, leb, length, length-append, All, All-append,
  All-mono,
}
use ipbench.Python.Text.{Text, Bytes, is_digit}
use ipbench.Python.Text.Search.{
  slice_behind, Lacks, find-append, slice_to-append, slice_from-append, span-All,
}
use ipbench.Python.Number.{decimal}
use ipbench.Python.Number.RoundTrip.{
  decimal-ne-nil, ascii_digit, not_newline, decimal-IsDigit, int-decimal,
}
use ipbench.Python.Codec.{decode_ignore, decode_ascii_ignore}
use ipbench.Python.Codec.Ascii.{IsAscii, decode_ignore-append, decode_ascii_ignore-append}
use ipbench.Python.Outcome.{returned}
use ipbench.Controller.Socket.{Peer, recv}
use ipbench.Controller.ReturnCode.{Status, parse_return_code}
use ipbench.Controller.Unmarshall.{
  digits_of, validity, match_length, content_label, missing, read_rest, read_status, read_length,
}

-- The pieces joined.
abbrev pub joined : List Bytes → Bytes
joined [] = []
joined (piece ∷ rest) = piece ++ joined rest

length_line-IsAscii : (c : ℕ) → IsAscii (content_label ++ decimal c)
length_line-IsAscii c =
    All-append (λ d. d < 0x80) content_label (decimal c) (omega arith)
      (All-mono (decimal c) ascii_digit (decimal-IsDigit c))

length_line_whole : (c : ℕ) → Lacks b'\n' (content_label ++ decimal c)
length_line_whole c =
    All-append (λ d. d ≢ b'\n') content_label (decimal c) (omega arith)
      (All-mono (decimal c) not_newline (decimal-IsDigit c))

-- The line with the length is ASCII, whatever the content behind it.
length_line_decoded :
    (c : ℕ) (content : Bytes)
    → decode_ascii_ignore ((content_label ++ decimal c) ++ b'\n' ∷ content)
      ≡ (content_label ++ decimal c) ++ b'\n' ∷ decode_ascii_ignore content
length_line_decoded c content =
    let line = content_label ++ decimal c in
    rw (sym (append_assoc line (b'\n' ∷ []) content)) (
      decode_ascii_ignore-append (line ++ b'\n' ∷ []) content
        (All-append (λ d. d < 0x80) line (b'\n' ∷ []) (length_line-IsAscii c) (omega arith, tt))
      ∙ append_assoc line (b'\n' ∷ []) _)

digits_of_lem : (t : Text) → t ≢ [] → digits_of t ≡ returned t
digits_of_lem [] h = absurd (h refl)
digits_of_lem (d ∷ ds) h = refl

match_length_lem : (c : ℕ) → match_length (content_label ++ decimal c) ≡ returned (decimal c)
unfolding match_length
match_length_lem c =
    rw
      (
        slice_from-append content_label (decimal c),
        span-All is_digit (decimal c) (decimal-IsDigit c),
      )
      (digits_of_lem (decimal c) (decimal-ne-nil c))

module _ {T : Type 0} where
  -- The peer with other pieces to come.
  abbrev pub with_incoming : Peer T → List Bytes → Peer T
  with_incoming p pieces = record p { incoming = pieces }

  pub recv_whole :
      (n : ℕ) (piece : Bytes) (rest : List Bytes) (p : Peer T)
      → length piece ≤ n
      → recv (pos n) (with_incoming p (piece ∷ rest)) ≡ (returned piece, with_incoming p rest)
  unfolding recv
  recv_whole n piece rest p h = let e : leb (length piece) n ≡ true = ground arith in rw e

  recv_next :
      (c : ℕ) (got piece : Bytes) (rest : List Bytes) (p : Peer T)
      → length got + length piece ≤ c
      → recv (missing (pos c) (length got)) (with_incoming p (piece ∷ rest))
        ≡ (returned piece, with_incoming p rest)
  recv_next c got piece rest p h =
      let e : leb (length got) c ≡ true = ground arith in
      rw e (recv_whole (c - length got) piece rest p (omega arith))

  -- If no piece that is still to come is empty, the pieces have together with what was read the
  -- length of the content, and there are more rounds than pieces, then the loop reads them all and
  -- returns what was read with the pieces behind it.
  pub read_rest_lem :
      (rest : List Bytes) (rounds c : ℕ) (got : Bytes) (p : Peer T)
      → All (λ (piece : Bytes). 0 < length piece) rest
      → length got + length (joined rest) ≡ c
      → length rest < rounds
      → read_rest rounds (pos c) got (with_incoming p rest)
        ≡ (returned (got ++ joined rest), with_incoming p [])
  unfolding read_rest
  read_rest_lem rest zero c got p full total h = absurd (omega arith)
  read_rest_lem [] (suc rounds) c got p full total h =
      let e : is (pos c) (length got) ≡ true = ground arith in rw (e, read_rest, append-nil)
  read_rest_lem (piece ∷ rest) (suc rounds) c got p (some_bytes, full) total h =
      let n = length-append piece (joined rest) in
      let e : is (pos c) (length got) ≡ false = ground (arith, n) in
      rw (e, read_rest, recv_next c got piece rest p (omega (arith, n)))
        (read_rest_lem rest rounds c (got ++ piece) p full
            (omega (arith, n, length-append got piece)) (omega arith)
          ∙ ap (λ (l : Bytes). (returned l, with_incoming p []))
              (append_assoc got piece (joined rest)))

  -- The first piece holds the status line.
  pub read_status_lem :
      (line r : Bytes) (status : Status) (valid : Bool) (rest : List Bytes) (p : Peer T)
      → IsAscii line
      → Lacks b'\n' line
      → parse_return_code line ≡ returned status
      → validity status ≡ returned valid
      → length (line ++ b'\n' ∷ r) ≤ 128
      → read_status (with_incoming p ((line ++ b'\n' ∷ r) ∷ rest))
        ≡ (returned (valid, r), with_incoming p rest)
  unfolding read_status
  read_status_lem line r status valid rest p ascii whole parsed known short =
      let e = append_assoc line (b'\n' ∷ []) r in
      let d : decode_ignore (line ++ b'\n' ∷ r) ≡ line ++ b'\n' ∷ decode_ignore r = rw (← e) (
        decode_ignore-append (line ++ b'\n' ∷ []) r
          (All-append (λ c. c < 0x80) line (b'\n' ∷ []) ascii (omega arith, tt))
        ∙ append_assoc line (b'\n' ∷ []) _) in
      rw (
        recv_whole 128 (line ++ b'\n' ∷ r) rest p short,
        d,
        find-append b'\n' line _ whole,
        slice_to-append line,
        parsed,
        known,
        slice_behind line b'\n' r,
      )

  -- The rest of the first piece and the second piece hold the line with the length.
  pub read_length_lem :
      (c : ℕ) (r piece content : Bytes) (rest : List Bytes) (p : Peer T)
      → r ++ piece ≡ content_label ++ (decimal c ++ b'\n' ∷ content)
      → length piece ≤ 128
      → read_length r (with_incoming p (piece ∷ rest))
        ≡ (returned (pos c, content), with_incoming p rest)
  unfolding read_length
  read_length_lem c r piece content rest p split short =
      let line = content_label ++ decimal c in
      let d = length_line_decoded c content in
      rw (
        recv_whole 128 piece rest p short,
        split,
        ← append_assoc content_label (decimal c),
        d,
        find-append b'\n' line _ (length_line_whole c),
        slice_to-append line,
        match_length_lem c,
        int-decimal c,
        slice_behind line b'\n' content,
      )
