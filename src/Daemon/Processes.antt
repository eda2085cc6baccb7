-- ===== src/Daemon/Processes.antt =====
-- The process table of a server in client mode: what the signals that ipbench2/src/ipbenchd.py sends
-- with os.kill do to the processes of the connections.
use ipbench.Prelude.{
  ℕ, ℤ, pos, negsuc, Bool, true, false, Option, none, some, ◌==◌, if◌then◌else◌, ◌≡◌, ◌≢◌, ◌⊎◌, inl,
  inr, refl, arith,
}
use ipbench.Daemon.World.{Os, Signal, sigint, sigkill, sigusr1}

abbrev pub update {ℓ} : {A : Type ℓ} → (ℕ → A) → ℕ → A → ℕ → A
update f i a j = if i == j then a else f j

-- A process that has ended can be signalled until it is waited for.
pub data Life : Type 0 where
  absent runs ended : Life

abbrev pub is_running : Life → Bool
is_running absent = false
is_running runs = true
is_running ended = false

-- SIGINT and SIGKILL end a process that runs. SIGUSR1 is not sent in client mode.
abbrev pub signalled : Signal → ℕ → (ℕ → Life) → ℕ → Life
signalled sigusr1 p lives = lives
signalled sigint p lives = update lives p ended
signalled sigkill p lives = update lives p ended

abbrev pub send_signal : ℤ → Signal → (ℕ → Life) → Option (ℕ → Life)
send_signal (negsuc n) sig lives = none
send_signal (pos p) sig lives = elim (lives p) [
  | absent ↦ none
  | runs ↦ some (signalled sig p lives)
  | ended ↦ some lives
]

-- The process table.
abbrev pub live : Os
live = record { Table = ℕ → Life; kill = send_signal }

pub update_same {ℓ} : {A : Type ℓ} (f : ℕ → A) (i : ℕ) (a : A) → update f i a i ≡ a
update_same f i a = let e : (i == i) ≡ true = ground arith in rw e refl

pub update_other {ℓ} : {A : Type ℓ} (f : ℕ → A) (i j : ℕ) (a : A) → i ≢ j → update f i a j ≡ f j
update_other f i j a h = let e : (i == j) ≡ false = ground arith in rw e refl

pub Life-cases : (l : Life) → (l ≡ absent) ⊎ ((l ≡ runs) ⊎ (l ≡ ended))
Life-cases absent = inl refl
Life-cases runs = inr (inl refl)
Life-cases ended = inr (inr refl)
