-- ===== src/Daemon/TestStatus.antt =====
-- The class `TestStatus` of ipbench2/src/ipbenchd.py: an anonymous shared mapping of 20 bytes that
-- holds the process id of the running test as text, and 0 where no test runs.
pub mod RoundTrip
pub mod History
pub mod Register
use ipbench.Prelude.{
  ℕ, suc, ◌+◌, Bool, true, false, none, some, List, [], ◌∷◌, ◌++◌, leb, if◌then◌else◌, ltb, ℤ, pos,
  negsuc, length, take, drop, replicate,
}
use ipbench.Python.Text.{Bytes, codes, position}
use ipbench.Python.Number.{decimal, int}
use ipbench.Python.Codec.{encode}
use ipbench.Python.Outcome.{Outcome, raised, returned, value_error, or_raise}
use ipbench.Python.Exec.{Exec, pure, raise, lift, ◌>>=◌, ◌>>◌}

-- The mapping and its file position.
pub record TestStatus : Type 0 where
  pub mem : Bytes
  pub at : ℕ

-- `mem` with `data` written over it from a position.
abbrev pub overwrite : ℕ → Bytes → Bytes → Bytes
overwrite i text mem = take i mem ++ (text ++ drop (i + length text) mem)

-- mmap.write: data that does not fit is refused, and nothing is written.
unfoldable pub mmap_write : Bytes → Exec TestStatus (Unit {0})
mmap_write text st =
    if leb (st.at + length text) (length st.mem)
    then (returned tt, record { mem = overwrite st.at text st.mem; at = st.at + length text })
    else (raised value_error, st)

-- The bytes up to the first line feed, and with it; all bytes if there is none.
unfoldable pub line_of : Bytes → Bytes
line_of bs = elim (position b'\n' bs) [ none ↦ bs | some i ↦ take (suc i) bs ]

-- mmap.readline
unfoldable pub mmap_readline : Exec TestStatus Bytes
unfolding line_of
mmap_readline st =
    let line = line_of (drop st.at st.mem) in
    (returned line, record st { at = st.at + length line })

-- mmap.seek(0)
abbrev pub rewind : Exec TestStatus (Unit {0})
rewind st = (returned tt, record st { at = 0 })

-- write_pid
unfoldable pub write_pid : ℕ → Exec TestStatus (Unit {0})
unfolding mmap_write
write_pid pid = do mmap_write (encode (decimal pid) ++ b'\n' ∷ []); rewind

-- read_pid: `int` of the bytes. The mapping holds digits and line feeds, on which `int` of bytes and
-- of text agree.
unfoldable pub read_pid : Exec TestStatus ℤ
unfolding mmap_readline
read_pid = do string_pid ← mmap_readline; rewind; lift (or_raise value_error (int string_pid))

-- clear_pid: `self.mmap_obj[0:2] = b'0\n'`, and the debug line reads the id back.
unfoldable pub clear_pid : Exec TestStatus (Unit {0})
unfolding read_pid
clear_pid st =
    let cleared : TestStatus = record st { mem = overwrite 0 (codes "0\n") st.mem } in
    (do read_pid; pure tt) cleared

-- __init__: the mapping starts as zeros.
unfoldable pub init : Outcome (Unit {0}) × TestStatus
unfolding clear_pid
init = clear_pid (record { mem = replicate 20 0; at = 0 })

unfoldable pub running : ℕ → Exec TestStatus (Unit {0})
running pid = write_pid pid

unfoldable pub not_running : Exec TestStatus (Unit {0})
not_running = clear_pid

-- 0 < p
abbrev positive : ℤ → Bool
positive (pos p) = ltb 0 p
positive (negsuc p) = false

unfoldable pub is_running : Exec TestStatus Bool
is_running = do p ← read_pid; pure (positive p)

unfoldable pub running_pid : Exec TestStatus ℤ
running_pid = read_pid
