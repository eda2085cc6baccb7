-- ===== src/Controller/Poll.antt =====
-- The `select` loop of `main` in ipbench2/src/ipbench.py, over any way to unmarshall a client.
pub mod Order
use ipbench.Prelude.{ℕ, Bool, true, false, List, [], ◌∷◌, ◌==◌, if◌then◌else◌}
use ipbench.Python.Text.{codes}
use ipbench.Python.Outcome.{stalled, ipbench_error}
use ipbench.Python.Exec.{Exec, pure, raise, lift, ◌>>=◌, ◌>>◌}

-- The answers of both calls of `select` in a round: which sockets are readable then.
pub record Round : Type 0 where
  pub clients : ℕ → Bool
  pub targets : ℕ → Bool

-- select.select: those of the list that are readable, in its order
unfoldable pub select : (ℕ → Bool) → List ℕ → List ℕ
select ready [] = []
select ready (c ∷ l) = let rest = select ready l in if ready c then c ∷ rest else rest

-- list.remove: the first item that is equal
unfoldable pub remove : ℕ → List ℕ → List ℕ
remove c [] = []
remove c (d ∷ l) = let rest = remove c l in if d == c then l else d ∷ rest

-- An answer of a target is an error.
abbrev pub expect_silence : {W : Type 0} → List ℕ → Exec W (Unit {0})
expect_silence [] = pure tt
expect_silence (c ∷ l) = raise (ipbench_error (codes "Target returned an error!"))

module _ {W : Type 0} (unmarshall : ℕ → Exec W (Unit {0})) where
  -- for client in to_read, with the clients that are still waited for afterwards
  unfoldable pub serve : List ℕ → List ℕ → Exec W (List ℕ)
  unfolding remove
  serve [] wait_to_read = pure wait_to_read
  serve (c ∷ to_read) wait_to_read = unmarshall c >> serve to_read (remove c wait_to_read)

  -- while len(wait_to_read) > 0, for at most so many rounds
  unfoldable pub poll : List Round → List ℕ → List ℕ → Exec W (Unit {0})
  unfolding serve select
  poll [] wait_for_error [] = pure tt
  poll [] wait_for_error (c ∷ l) = lift stalled
  poll (r ∷ rounds) wait_for_error [] = pure tt
  poll (r ∷ rounds) wait_for_error (c ∷ l) = do
    waiting ← serve (select r.clients (c ∷ l)) (c ∷ l)
    expect_silence (select r.targets wait_for_error)
    poll rounds wait_for_error waiting
