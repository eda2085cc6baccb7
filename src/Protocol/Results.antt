-- ===== src/Protocol/Results.antt =====
-- The results of a test on their way: `marshall` of ipbenchd.py against `unmarshall` of ipbench.py.
use ipbench.Prelude.{
  pos, inr, inl, Bool-cases, All-mono, All-append, ℕ, suc, ◌+◌, ◌≤◌, ◌<◌, ◌≡◌, refl, sym, ap, ◌∙◌,
  Bool, true, false, ℤ, is, List, [], ◌∷◌, ◌++◌, append_assoc, arith, length, length-append, All,
}
use mathlib.Core.List.{append_cancel_left}
use ipbench.Python.Text.{Text, Bytes, codes, is_space, find}
use ipbench.Python.Text.Search.{Lacks}
use ipbench.Python.Number.{decimal, int}
use ipbench.Python.Codec.{encode}
use ipbench.Python.Codec.Ascii.{IsAscii, encode_ascii}
use ipbench.Python.Outcome.{Outcome, returned}
use ipbench.Python.Exec.{Exec}
use ipbench.Daemon.TestStatus.History.{not_running_lem}
use ipbench.Python.Number.RoundTrip.{ascii_digit, decimal-IsDigit}
use ipbench.Daemon.TestStatus.RoundTrip.{Holds}
use ipbench.Daemon.Shunt.{Shunt}
use ipbench.Daemon.World.{Os, World, write, send, reply, on_status}
use ipbench.Daemon.Status.{str_status}
use ipbench.Daemon.Finish.{deliver}
use ipbench.Controller.Socket.{Peer}
use ipbench.Controller.ReturnCode.{Status, parse_return_code}
use ipbench.Controller.Unmarshall.{content_label, validity, unmarshall}
use ipbench.Controller.Unmarshall.Pieces.{
  with_incoming, joined, read_status_lem, read_length_lem, read_rest_lem,
}

-- The status line of a result, without its line feed.
abbrev pub status_text : Bool → Text
status_text true = codes "220 VALID DATA (Data to follow)"
status_text false = codes "221 INVALID DATA (Data to follow)"

-- What the daemon writes: the status line, the line with the length, the content.
abbrev pub result_text : Bool → Bytes → Bytes
result_text valid content =
    status_text valid ++ (b'\n' ∷ (content_label ++ (decimal (length content) ++ b'\n' ∷ content)))

-- The three writes behind what was written before.
pub append-result_text :
    (out : Bytes) (valid : Bool) (content : Bytes)
    → ((out ++ (status_text valid ++ b'\n' ∷ []))
          ++ (content_label ++ (decimal (length content) ++ b'\n' ∷ [])))
        ++ content
      ≡ out ++ result_text valid content
append-result_text out valid content =
    let line = decimal (length content) in
    append_assoc (out ++ (status_text valid ++ b'\n' ∷ [])) (content_label ++ (line ++ b'\n' ∷ []))
      content
    ∙ append_assoc out (status_text valid ++ b'\n' ∷ []) _
    ∙ ap (λ (l : Text). out ++ l)
        (append_assoc (status_text valid) (b'\n' ∷ []) _
          ∙ ap (λ (l : Text). status_text valid ++ b'\n' ∷ (content_label ++ l))
              (append_assoc line (b'\n' ∷ []) content))

pub encode-length_text :
    (n : ℕ)
    → encode (codes "Content-length: " ++ (decimal n ++ b'\n' ∷ []))
      ≡ content_label ++ (decimal n ++ b'\n' ∷ [])
encode-length_text n = encode_ascii (content_label ++ (decimal n ++ b'\n' ∷ [])) (
    All-append (λ c. c < 0x80) content_label (decimal n ++ b'\n' ∷ []) (omega arith)
      (All-append (λ c. c < 0x80) (decimal n) (b'\n' ∷ [])
        (All-mono (decimal n) ascii_digit (decimal-IsDigit n)) (omega arith, tt)))

abbrev pub status_reply : Bool → Outcome Text
status_reply true = str_status 220 (codes "Data to follow" ∷ [])
status_reply false = str_status 221 (codes "Data to follow" ∷ [])

pub status_reply_lem :
    (valid : Bool) → status_reply valid ≡ returned (status_text valid ++ b'\n' ∷ [])
unfolding str_status decimal
status_reply_lem true = refl
status_reply_lem false = refl

pub encode-status_text :
    (valid : Bool) → encode (status_text valid ++ b'\n' ∷ []) ≡ status_text valid ++ b'\n' ∷ []
encode-status_text true = encode_ascii _ (omega arith)
encode-status_text false = encode_ascii _ (omega arith)

module _ {S : Shunt} {O : Os} where
  -- A connection to which nothing was written yet, with at least three writes left.
  abbrev pub ready : ℕ → World S O → World S O
  ready n w = record w { output = []; writes = suc (suc (suc n)) }

  -- For a plugin's result, over a socket that takes three writes, and with an id in the status, the
  -- state MARSHALL writes the status line 220 where the plugin returned 0 and 221 else, the line with
  -- the length of the content, and the content.
  pub output-deliver :
      (q : ℕ) (valid : ℤ) (content : Bytes) (n : ℕ) (w : World S O)
      → Holds q w.status
      → (deliver S O (valid, content) (ready n w)).1.output ≡ result_text (is valid 0) content
  unfolding deliver reply send write on_status
  output-deliver q valid content n w h =
      let (st, e, h') = not_running_lem q w.status h in
      let d = encode-length_text (length content) in
      let f = append_assoc (decimal (length content)) (b'\n' ∷ []) content in
      elim (Bool-cases (is valid 0)) [
        | inl ok ↦ rw (ok, status_reply_lem true, encode-status_text true, d, e, f)
        | inr bad ↦ rw (bad, status_reply_lem false, encode-status_text false, d, e, f)
      ]

-- The controller's reading of a status line.
status_read :
    (valid : Bool)
    → (s : Status) × (parse_return_code (status_text valid) ≡ returned s)
      × (validity s ≡ returned valid)
unfolding parse_return_code int is_space find
status_read true =
    (record { code = pos 220; str = codes "VALID DATA"; msg = codes "Data to follow" }, refl, refl)
status_read false = (
  record { code = pos 221; str = codes "INVALID DATA"; msg = codes "Data to follow" },
  refl,
  refl,
)

status-IsAscii : (valid : Bool) → IsAscii (status_text valid)
status-IsAscii true = omega arith
status-IsAscii false = omega arith

status_whole : (valid : Bool) → Lacks b'\n' (status_text valid)
status_whole true = omega arith
status_whole false = omega arith

-- What follows two prefixes, from the way in which the pieces are cut.
content_whole :
    (p q r second d tail content : Bytes)
    → (p ++ r) ++ (second ++ tail) ≡ p ++ (q ++ content)
    → r ++ second ≡ q ++ d
    → d ++ tail ≡ content
content_whole p q r second d tail content sent cut = append_cancel_left q (d ++ tail) content (
    append_cancel_left p _ _ (
      sym (
        ap (λ (l : Bytes). p ++ l)
          (sym (append_assoc r second tail)
            ∙ ap (λ (l : Bytes). l ++ tail) cut
            ∙ append_assoc q d tail))
      ∙ sym (append_assoc p r (second ++ tail))
      ∙ sent))

-- The same for the two lines of a result, each with its line feed.
result_whole :
    (v : Bool) (content r second d tail : Bytes)
    → (status_text v ++ b'\n' ∷ r) ++ (second ++ tail) ≡ result_text v content
    → r ++ second ≡ content_label ++ (decimal (length content) ++ b'\n' ∷ d)
    → d ++ tail ≡ content
result_whole v content r second d tail sent cut =
    let line = decimal (length content) in
    let e = append_assoc content_label (line ++ b'\n' ∷ []) d in
    let e' = append_assoc content_label (line ++ b'\n' ∷ []) content in
    content_whole (status_text v ++ b'\n' ∷ []) (content_label ++ (line ++ b'\n' ∷ [])) r second d
      tail content
      (rw
        (
          append_assoc (status_text v) (b'\n' ∷ []) r,
          append_assoc (status_text v) (b'\n' ∷ []),
          e',
          append_assoc line (b'\n' ∷ []) content,
        )
        sent)
      (rw (e, append_assoc line (b'\n' ∷ []) d) cut)

module _ {T : Type 0} where
  -- A result in pieces, as `unmarshall-deliver` has them.
  pub unmarshall-result_text :
      (v : Bool) (content first second r d : Bytes) (rest : List Bytes) (rounds : ℕ) (p : Peer T)
      (test : Bytes → Bool → Exec (Peer T) (Unit {0}))
      → first ++ (second ++ joined rest) ≡ result_text v content
      → first ≡ status_text v ++ b'\n' ∷ r
      → r ++ second ≡ content_label ++ (decimal (length content) ++ b'\n' ∷ d)
      → length first ≤ 128
      → length second ≤ 128
      → All (λ (piece : Bytes). 0 < length piece) rest
      → length rest < rounds
      → unmarshall rounds test (with_incoming p (first ∷ second ∷ rest))
        ≡ test content v (with_incoming p [])
  unfolding unmarshall
  unmarshall-result_text v content first second r d rest rounds p test sent f g short short' full
        enough =
      let (s, parsed, known) = status_read v in
      let sent' : (status_text v ++ b'\n' ∷ r) ++ (second ++ joined rest) ≡ result_text v content =
        ap (λ (l : Bytes). l ++ (second ++ joined rest)) (sym f) ∙ sent in
      let whole = result_whole v content r second d (joined rest) sent' g in
      let short_line : length (status_text v ++ b'\n' ∷ r) ≤ 128 = rw (← f) short in
      let total : length d + length (joined rest) ≡ length content =
        omega (arith, length-append d (joined rest), ap (λ (l : Bytes). length l) whole) in
      rw (
        f,
        read_status_lem (status_text v) r s v (second ∷ rest) p (status-IsAscii _) (status_whole _)
            parsed known short_line,
        read_length_lem (length content) r second d rest p g short',
        read_rest_lem rest rounds (length content) d p full total enough,
        whole,
      )

module _ {S : Shunt} {O : Os} {T : Type 0} where
  -- The bytes that the daemon writes for a result reach the test module of the controller as the
  -- same content with the same validity, in whatever pieces they arrive: if the first piece has at
  -- most 128 bytes and holds the status line, the second has at most 128 bytes and ends behind the
  -- line with the length, no later piece is empty, and there are more rounds of the loop than later
  -- pieces.
  pub unmarshall-deliver :
      (q : ℕ) (valid : ℤ) (content : Bytes) (n : ℕ) (w : World S O) (first second r d : Bytes)
      (rest : List Bytes) (rounds : ℕ) (p : Peer T) (test : Bytes → Bool → Exec (Peer T) (Unit {0}))
      → Holds q w.status
      → first ++ (second ++ joined rest) ≡ (deliver S O (valid, content) (ready n w)).1.output
      → first ≡ status_text (is valid 0) ++ b'\n' ∷ r
      → r ++ second ≡ content_label ++ (decimal (length content) ++ b'\n' ∷ d)
      → length first ≤ 128
      → length second ≤ 128
      → All (λ (piece : Bytes). 0 < length piece) rest
      → length rest < rounds
      → unmarshall rounds test (with_incoming p (first ∷ second ∷ rest))
        ≡ test content (is valid 0) (with_incoming p [])
  unmarshall-deliver q valid content n w first second r d rest rounds p test h sent f g short short'
        full enough =
      unmarshall-result_text (is valid 0) content first second r d rest rounds p test
        (sent ∙ output-deliver q valid content n w h) f g short short' full enough
