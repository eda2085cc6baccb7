-- ===== src/Controller/Main/Closing.antt =====
-- The loop that closes all connections.
use ipbench.Prelude.{
  ℕ, zero, suc, ◌+◌, ◌≤◌, ◌<◌, ◌≡◌, refl, ◌∙◌, false, List, [], ◌∷◌, ◌++◌, length, arith, ltb, leb,
  lt→ltb, if◌then◌else◌, ◌&&◌,
}
use ipbench.Python.Text.{codes}
use ipbench.Python.Codec.{encode}
use ipbench.Python.Outcome.{returned, raised, key_error}
use ipbench.Controller.Socket.{send_command}
use ipbench.Controller.Client.{close}
use ipbench.Controller.Config.{ClientSpec, TargetSpec}
use ipbench.Controller.Bench.{Modules, Connection, Bench, update, on_client, on_target}
use ipbench.Controller.Main.{each_from, close_client, close_target, close_all}

-- A connection over which QUIT was sent.
abbrev pub quit : Connection → Connection
quit c = record c { sent = c.sent ++ encode (codes "QUIT" ++ b'\n' ∷ []) }

-- So many connections, from a place on, are closed.
abbrev pub quit_from : ℕ → ℕ → (ℕ → Connection) → ℕ → Connection
quit_from zero i f = f
quit_from (suc n) i f = quit_from n (suc i) (update f i (quit (f i)))

-- What that is at each place.
pub quit_from_lem :
    (n i : ℕ) (f : ℕ → Connection) (j : ℕ)
    → quit_from n i f j ≡ (if leb i j && ltb j (i + n) then quit (f j) else f j)
quit_from_lem zero i f j = ground arith
quit_from_lem (suc n) i f j = quit_from_lem n (suc i) (update f i (quit (f i))) j ∙ ground arith

module _ {M : Modules} where
  close_client_made :
      (i : ℕ) (c : ClientSpec) (w : Bench M)
      → i < w.clients_made
      → close_client i c w ≡ (returned tt, record w { clients = quit_from 1 i w.clients })
  unfolding close_client on_client close send_command
  close_client_made i c w h = rw (lt→ltb i w.clients_made h) refl

  close_client_missing :
      (i : ℕ) (c : ClientSpec) (w : Bench M)
      → w.clients_made ≡ i
      → close_client i c w ≡ (raised key_error, w)
  unfolding close_client
  close_client_missing i c w h = let e : ltb i w.clients_made ≡ false = ground arith in rw e refl

  close_target_made :
      (i : ℕ) (t : TargetSpec) (w : Bench M)
      → i < w.targets_made
      → close_target i t w ≡ (returned tt, record w { targets = quit_from 1 i w.targets })
  unfolding close_target on_target close send_command
  close_target_made i t w h = rw (lt→ltb i w.targets_made h) refl

  close_clients :
      (i : ℕ) (l : List ClientSpec) (w : Bench M)
      → i + length l ≤ w.clients_made
      → each_from close_client i l w
        ≡ (returned tt, record w { clients = quit_from (length l) i w.clients })
  unfolding each_from
  close_clients i [] w h = refl
  close_clients i (c ∷ l) w h =
      rw (close_client_made i c w (omega arith))
        (close_clients (suc i) l (record w { clients = quit_from 1 i w.clients }) (omega arith))

  close_targets :
      (i : ℕ) (l : List TargetSpec) (w : Bench M)
      → i + length l ≤ w.targets_made
      → each_from close_target i l w
        ≡ (returned tt, record w { targets = quit_from (length l) i w.targets })
  unfolding each_from
  close_targets i [] w h = refl
  close_targets i (t ∷ l) w h =
      rw (close_target_made i t w (omega arith))
        (close_targets (suc i) l (record w { targets = quit_from 1 i w.targets }) (omega arith))

  -- `k` clients have their objects, and at least one more is in the list.
  close_clients_missing :
      (k i : ℕ) (l : List ClientSpec) (w : Bench M)
      → w.clients_made ≡ i + k
      → k < length l
      → each_from close_client i l w
        ≡ (raised key_error, record w { clients = quit_from k i w.clients })
  unfolding each_from
  close_clients_missing k i [] w made short = absurd (omega arith)
  close_clients_missing zero i (c ∷ l) w made short =
      rw (close_client_missing i c w (omega arith)) refl
  close_clients_missing (suc k) i (c ∷ l) w made short =
      rw (close_client_made i c w (omega arith)) (
        close_clients_missing k (suc i) l (record w { clients = quit_from 1 i w.clients })
          (omega arith) (omega arith))

  pub close_all_made :
      (clients : List ClientSpec) (targets : List TargetSpec) (w : Bench M)
      → w.clients_made ≡ length clients
      → w.targets_made ≡ length targets
      → close_all clients targets w ≡ (
        returned tt,
        record w {
          clients = quit_from (length clients) 0 w.clients;
          targets = quit_from (length targets) 0 w.targets;
        },
      )
  unfolding close_all
  close_all_made clients targets w k n = rw (close_clients 0 clients w (omega arith)) (
      close_targets 0 targets (record w { clients = quit_from (length clients) 0 w.clients })
        (omega arith))

  pub close_all_missing :
      (clients : List ClientSpec) (targets : List TargetSpec) (w : Bench M)
      → w.clients_made < length clients
      → close_all clients targets w
        ≡ (raised key_error, record w { clients = quit_from w.clients_made 0 w.clients })
  unfolding close_all
  close_all_missing clients targets w short =
      rw (close_clients_missing w.clients_made 0 clients w (omega arith) short) refl
