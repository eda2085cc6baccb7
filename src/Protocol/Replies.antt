-- ===== src/Protocol/Replies.antt =====
-- The controller reads the daemon's reply lines: `str_status` of ipbenchd.py against
-- `_parse_return_code` of ipbench.py.
use mathlib.Core.Option.{none-ne-some, some-injective}
use ipbench.Prelude.{
  All-append, ℕ, suc, ◌+◌, ◌≡◌, ◌≢◌, refl, sym, ap, ◌∙◌, some, List, [], ◌∷◌, ◌++◌, append_assoc,
  arith, All, pos, length, length-append, ◌==◌, Bool-cases, inl, inr, ==_iff,
}
use ipbench.Python.Text.{Text, codes, find, slice, strip, is_space, span}
use ipbench.Python.Text.Search.{
  slice_front, Lacks, before, before-Lacks, append-before, find-append, slice-append,
}
use ipbench.Python.Number.{int, decimal}
use ipbench.Python.Outcome.{returned}
use ipbench.Daemon.Status.{err_codes, name_of, status_line, str_status, join_words}
use ipbench.Controller.ReturnCode.{status_of, parse_return_code}

-- A line of a code, a name and a message in brackets.
abbrev bracketed : Text → Text → Text → Text → Text
bracketed head name q rest = head ++ (name ++ (b'(' ∷ (q ++ b')' ∷ rest)))

module _ (head name q rest : Text) where
  find_open :
      Lacks b'(' (head ++ name)
      → find b'(' (bracketed head name q rest) ≡ pos (length (head ++ name))
  find_open h = rw (← append_assoc head name) (find-append b'(' (head ++ name) _ h)

  find_close :
      Lacks b')' (head ++ name)
      → Lacks b')' q
      → find b')' (bracketed head name q rest) ≡ pos (length (head ++ name) + length (b'(' ∷ q))
  find_close h clean =
      rw (← append_assoc head name, ← append_assoc (head ++ name) (b'(' ∷ q) (b')' ∷ rest))
        (find-append b')' ((head ++ name) ++ b'(' ∷ q) rest
            (All-append (λ d. d ≢ b')') (head ++ name) (b'(' ∷ q) h ((cc), clean))
          ∙ ap pos (length-append (head ++ name) (b'(' ∷ q)))

  slice_name :
      length head ≡ 4
      → slice (pos 4) (pos (length (head ++ name))) (bracketed head name q rest) ≡ name
  slice_name four =
      rw (← four, length-append head name) (slice-append head name (b'(' ∷ (q ++ b')' ∷ rest)))

  slice_message :
      slice
        (pos (suc (length (head ++ name))))
        (pos (length (head ++ name) + length (b'(' ∷ q)))
        (bracketed head name q rest)
      ≡ q
  slice_message =
      let p = head ++ name in
      let e : suc (length p) ≡ length (p ++ b'(' ∷ []) =
        omega (arith, length-append p (b'(' ∷ [])) in
      let f : length p + length (b'(' ∷ q) ≡ length (p ++ b'(' ∷ []) + length q =
        omega (arith, length-append p (b'(' ∷ [])) in
      let g : bracketed head name q rest ≡ (p ++ b'(' ∷ []) ++ (q ++ b')' ∷ rest) =
        sym (append_assoc p (b'(' ∷ []) _ ∙ append_assoc head name _) in
      rw (e, f, g) (slice-append (p ++ b'(' ∷ []) q (b')' ∷ rest))

  slice_code :
      (num : Text)
      → head ≡ num ++ b' ' ∷ []
      → length num ≡ 3
      → slice (pos 0) (pos 3) (bracketed head name q rest) ≡ num
  slice_code num split three = rw (← three, split, append_assoc num (b' ' ∷ [])) (slice_front num _)

parse_of :
    (text : Text) (code : ℕ)
    → int (slice (pos 0) (pos 3) text) ≡ some (pos code)
    → parse_return_code text ≡ returned (status_of (pos code) text (find b'(' text))
unfolding parse_return_code
parse_of text code read = rw (read, parse_return_code)

-- What is read from a line `num name (message)`, for a message that may hold brackets itself.
parse_line :
    (code : ℕ) (num name msg end : Text)
    → length num ≡ 3
    → int num ≡ some (pos code)
    → Lacks b'(' ((num ++ b' ' ∷ []) ++ name)
    → Lacks b')' ((num ++ b' ' ∷ []) ++ name)
    → parse_return_code ((num ++ b' ' ∷ []) ++ (name ++ (b'(' ∷ (msg ++ b')' ∷ end))))
      ≡ returned (record { code = pos code; str = strip name; msg = strip (before b')' msg) })
parse_line code num name msg end three read no_open no_close =
    let head = num ++ b' ' ∷ [] in
    let q = before b')' msg in
    let (rest, e) = append-before b')' msg end in
    let four : length head ≡ 4 = omega (arith, length-append num (b' ' ∷ [])) in
    rw e (
      parse_of (bracketed head name q rest) code
        (rw (slice_code head name q rest num refl three) read)
      ∙ rw (
        find_open head name q rest no_open,
        find_close head name q rest no_close (before-Lacks b')' msg),
        slice_name head name q rest four,
        slice_message head name q rest,
      ))

-- What the controller reads from a line of the table with a message.
abbrev ReadsBack : ℕ × Text → Type 0
ReadsBack (code, name) =
    (m : Text) (ms : List Text)
    → parse_return_code (status_line code name (m ∷ ms))
      ≡ returned
          (record { code = pos code; str = name; msg = strip (before b')' (join_words (m ∷ ms))) })

All-read_back : All ReadsBack err_codes
unfolding decimal int is_space
All-read_back = (
  λ m ms. line 100 (codes "100") (codes "IPBENCH V1.0 ") refl refl (omega arith) (omega arith) m ms,
  (
    λ m ms. line 200 (codes "200") (codes "OK ") refl refl (omega arith) (omega arith) m ms,
    (
      λ m ms.
          line 220 (codes "220") (codes "VALID DATA ") refl refl (omega arith) (omega arith) m ms,
      (
        λ m ms.
            line 221 (codes "221") (codes "INVALID DATA ") refl refl (omega arith) (omega arith) m
              ms,
        (
          λ m ms.
              line 222 (codes "222") (codes "CLOSING CONTROL CONNECTION ") refl refl (omega arith)
                (omega arith) m ms,
          (
            λ m ms.
                line 400 (codes "400") (codes "ERROR ") refl refl (omega arith) (omega arith) m ms,
            (
              λ m ms.
                  line 421 (codes "421") (codes "SERVICE NOT AVAILABLE ") refl refl (omega arith)
                    (omega arith) m ms,
              (
                λ m ms.
                    line 451 (codes "451") (codes "LOCAL PROCESSING ERROR ") refl refl (omega arith)
                      (omega arith) m ms,
                (
                  λ m ms.
                      line 500 (codes "500") (codes "SYNTAX ERROR ") refl refl (omega arith)
                        (omega arith) m ms,
                  tt,
                ),
              ),
            ),
          ),
        ),
      ),
    ),
  ),
)
  where
    line :
        (code : ℕ) (num name : Text)
        → length num ≡ 3
        → int num ≡ some (pos code)
        → Lacks b'(' ((num ++ b' ' ∷ []) ++ name)
        → Lacks b')' ((num ++ b' ' ∷ []) ++ name)
        → (m : Text) (ms : List Text)
        → parse_return_code
            ((num ++ b' ' ∷ []) ++ (name ++ (b'(' ∷ (join_words (m ∷ ms) ++ b')' ∷ b'\n' ∷ []))))
          ≡ returned (record {
            code = pos code;
            str = strip name;
            msg = strip (before b')' (join_words (m ∷ ms)));
          })
    line code num name three read no_open no_close m ms =
        parse_line code num name (join_words (m ∷ ms)) (b'\n' ∷ []) three read no_open no_close

-- What the controller reads from a line of the table without a message.
abbrev ReadsPlain : ℕ × Text → Type 0
ReadsPlain (code, name) =
    parse_return_code (status_line code name [])
    ≡ returned (record { code = pos code; str = name; msg = [] })

All-read_plain : All ReadsPlain err_codes
unfolding decimal int is_space parse_return_code strip find
All-read_plain = (refl, (refl, (refl, (refl, (refl, (refl, (refl, (refl, (refl, tt)))))))))

name_of-All :
    (P : ℕ × Text → Type 0) (table : List (ℕ × Text)) (code : ℕ) (name : Text)
    → All P table
    → name_of code table ≡ some name
    → P (code, name)
name_of-All P [] code name h e = absurd (none-ne-some name e)
name_of-All P ((d, n) ∷ table) code name (h, hs) e = elim (Bool-cases (code == d)) [
  | inl same ↦
      let f : n ≡ name = some-injective n name (rw same at e) in rw ((==_iff code d).0 same, ← f) h
  | inr differ ↦ name_of-All P table code name hs (rw differ at e)
]

str_status_lem :
    (code : ℕ) (msg : List Text) (name : Text)
    → name_of code err_codes ≡ some name
    → str_status code msg ≡ returned (status_line code name msg)
unfolding str_status
str_status_lem code msg name known = rw (known, str_status)

read_back :
    (code : ℕ) (name : Text) (msg : List Text)
    → name_of code err_codes ≡ some name
    → parse_return_code (status_line code name msg)
      ≡ returned
          (record { code = pos code; str = name; msg = strip (before b')' (join_words msg)) })
unfolding strip span
read_back code name [] known = name_of-All ReadsPlain err_codes code name All-read_plain known
read_back code name (m ∷ ms) known =
    name_of-All ReadsBack err_codes code name All-read_back known m ms

-- The controller reads from every reply, with a message or without one, the code, its name, and the
-- message up to its first closing bracket, without the spaces at its ends; without a message it reads
-- the empty one.
pub parse_return_code-str_status :
    (code : ℕ) (msg : List Text) {name line : Text}
    → name_of code err_codes ≡ some name
    → str_status code msg ≡ returned line
    → parse_return_code line
      ≡ returned
          (record { code = pos code; str = name; msg = strip (before b')' (join_words msg)) })
parse_return_code-str_status code msg {name} {line} known printed =
    let e : status_line code name msg ≡ line = cc (str_status_lem code msg name known) in
    rw (← e) (read_back code name msg known)
