-- ===== src/Controller/Socket.antt =====
-- The controller's TCP socket, as ipbench2/src/ipbench.py uses it.
use ipbench.Prelude.{ℕ, List, [], ◌∷◌, ◌++◌, ℤ, pos, negsuc, leb, if◌then◌else◌, length, take, drop}
use ipbench.Python.Text.{Text, Bytes}
use ipbench.Python.Codec.{encode}
use ipbench.Python.Outcome.{returned, raised, value_error}
use ipbench.Python.Exec.{Exec}

-- The pieces in which the peer's bytes arrive, none of them empty, before it closes the connection;
-- what was sent; and the state of the test module.
pub record Peer (T : Type 0) : Type 0 where
  pub incoming : List Bytes
  pub sent : Bytes
  pub tests : T

module _ {T : Type 0} where
  abbrev pub recv_when : ℕ → List Bytes → Exec (Peer T) Bytes
  recv_when n [] p = (returned [], p)
  recv_when n (piece ∷ rest) p =
      if leb (length piece) n
      then (returned piece, record p { incoming = rest })
      else (returned (take n piece), record p { incoming = drop n piece ∷ rest })

  -- self.socket.recv(n): what has arrived, up to n bytes; nothing once the peer has closed. A
  -- negative size is a ValueError.
  unfoldable pub recv : ℤ → Exec (Peer T) Bytes
  recv (pos n) p = recv_when n p.incoming p
  recv (negsuc n) p = (raised value_error, p)

  -- send_command
  unfoldable pub send_command : Text → Exec (Peer T) (Unit {0})
  send_command cmd p = (returned tt, record p { sent = p.sent ++ encode (cmd ++ b'\n' ∷ []) })
