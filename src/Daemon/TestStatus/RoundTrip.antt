-- ===== src/Daemon/TestStatus/RoundTrip.antt =====
-- What is written to the shared mapping is what every later read finds.
use ipbench.Prelude.{
  ℕ, suc, ◌+◌, ◌^◌, ◌≤◌, ◌<◌, ◌≡◌, refl, ◌∙◌, true, [], ◌∷◌, ◌++◌, append_assoc, arith, leb, pos,
  length, drop, replicate, length-append, length-drop, take-suc-append, All-mono,
}
use ipbench.Python.Text.{Bytes, is_space, position}
use ipbench.Python.Text.Search.{position-append}
use ipbench.Python.Number.{decimal, int}
use ipbench.Python.Number.RoundTrip.{
  ascii_digit, not_newline, decimal-IsDigit, int-decimal_line, length-decimal,
}
use ipbench.Python.Codec.{encode}
use ipbench.Python.Codec.Ascii.{encode_ascii}
use ipbench.Python.Outcome.{returned}
use ipbench.Daemon.TestStatus.{TestStatus, line_of, write_pid, read_pid, clear_pid, overwrite, init}

-- The mapping begins with a line that reads as `p`, and the position is at its start.
abbrev pub image : ℕ → Bytes → TestStatus
image p rest = record { mem = decimal p ++ b'\n' ∷ rest; at = 0 }

-- The mapping has its 20 bytes, and `p` is the id that it holds.
pub record Holds (p : ℕ) (st : TestStatus) : Type 0 where
  pub size : length st.mem ≡ 20
  pub rest : Bytes
  pub shape : st ≡ image p rest

-- Some id is held.
abbrev pub IsValid : TestStatus → Type 0
IsValid st = (p : ℕ) × Holds p st

pub encode-decimal : (p : ℕ) → encode (decimal p) ≡ decimal p
encode-decimal p = encode_ascii (decimal p) (All-mono (decimal p) ascii_digit (decimal-IsDigit p))

line_of-decimal :
    (p : ℕ) (rest : Bytes) → line_of (decimal p ++ b'\n' ∷ rest) ≡ decimal p ++ b'\n' ∷ []
unfolding line_of
line_of-decimal p rest =
    rw
      (
        position-append b'\n' (decimal p) rest
            (All-mono (decimal p) not_newline (decimal-IsDigit p)),
        line_of,
      )
      (take-suc-append (decimal p) b'\n' rest)

read_pid-image : (p : ℕ) (rest : Bytes) → read_pid (image p rest) ≡ (returned (pos p), image p rest)
unfolding read_pid
read_pid-image p rest = rw (line_of-decimal p rest, int-decimal_line p)

pub read_pid_of_Holds :
    (p : ℕ) (st : TestStatus) → Holds p st → read_pid st ≡ (returned (pos p), st)
read_pid_of_Holds p st h = rw h.shape (read_pid-image p h.rest)

-- The bytes of an id, with its line feed.
abbrev stamp : ℕ → Bytes
stamp p = decimal p ++ b'\n' ∷ []

length-stamp : (p k : ℕ) → p < 10 ^ suc k → length (stamp p) ≤ suc (suc k)
length-stamp p k h = omega (arith, length-append (decimal p) (b'\n' ∷ []), length-decimal p k h)

length-overwrite :
    (text mem : Bytes) → length text ≤ length mem → length (overwrite 0 text mem) ≡ length mem
length-overwrite text mem h =
    omega
      (arith, length-append text (drop (0 + length text) mem), length-drop (0 + length text) mem)

overwrite-stamp :
    (p : ℕ) (mem : Bytes)
    → overwrite 0 (stamp p) mem ≡ decimal p ++ b'\n' ∷ drop (0 + length (stamp p)) mem
overwrite-stamp p mem = append_assoc (decimal p) (b'\n' ∷ []) _

-- What `mem` becomes when `p` is written at its start.
abbrev pub held : ℕ → Bytes → TestStatus
held p mem = image p (drop (0 + length (stamp p)) mem)

length-held : (p : ℕ) (mem : Bytes) → p < 10 ^ 19 → length mem ≡ 20 → length (held p mem).mem ≡ 20
length-held p mem small size =
    rw (← overwrite-stamp p mem)
      (length-overwrite (stamp p) mem (omega (arith, length-stamp p 18 small)) ∙ size)

pub Holds-held : (p : ℕ) (mem : Bytes) → p < 10 ^ 19 → length mem ≡ 20 → Holds p (held p mem)
Holds-held p mem small size = record {
  size = length-held p mem small size;
  rest = drop (0 + length (stamp p)) mem;
  shape = refl;
}

fits :
    (p : ℕ) (mem : Bytes)
    → p < 10 ^ 19
    → length mem ≡ 20
    → leb (0 + length (stamp p)) (length mem) ≡ true
fits p mem small size =
    let h : 0 + length (stamp p) ≤ length mem = omega (arith, length-stamp p 18 small) in
    ground arith

-- A write of an id that fits leaves a mapping that holds it, whatever it held before.
pub write_pid-held :
    (p : ℕ) (mem : Bytes)
    → p < 10 ^ 19
    → length mem ≡ 20
    → write_pid p (record { mem = mem; at = 0 }) ≡ (returned tt, held p mem)
unfolding write_pid
write_pid-held p mem small size =
    rw (encode-decimal p, fits p mem small size, overwrite-stamp p mem)

pub clear_pid-held :
    (mem : Bytes) → clear_pid (record { mem = mem; at = 0 }) ≡ (returned tt, held 0 mem)
unfolding clear_pid decimal line_of int position is_space
clear_pid-held mem = refl

pub init-held : init ≡ (returned tt, held 0 (replicate 20 0))
unfolding init
init-held = clear_pid-held (replicate 20 0)
