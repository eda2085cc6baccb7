-- ===== src/Controller/Poll/Order.antt =====
-- The loop unmarshalls each client exactly once.
use mathlib.Core.List.{Perm, perm_middle}
use mathlib.Core.List.Perm
use ipbench.Prelude.{
  ℕ, ◌≡◌, refl, sym, ap, ◌∙◌, Bool, true, false, not, List, [], ◌∷◌, ◌++◌, ◌==◌, All, Bool-cases,
  inl, inr, ◌⊎◌, arith,
}
use ipbench.Python.Outcome.{Outcome}
use ipbench.Python.Exec.{Exec, pure, each, ◌>>=◌, ◌>>◌, resume}
use ipbench.Python.Exec.Laws.{bind_ext, bind_assoc, each-append}
use ipbench.Controller.Poll.{Round, select, remove, serve, poll, expect_silence}

-- The clients in the order in which they are served.
unfoldable pub served : List Round → List ℕ → List ℕ
unfolding select
served [] waiting = []
served (r ∷ rounds) waiting =
    select r.clients waiting ++ served rounds (select (λ c. not (r.clients c)) waiting)

-- Some round finds the client readable.
abbrev pub EventuallyReady : List Round → ℕ → Type 0
EventuallyReady [] c = ⊥
EventuallyReady (r ∷ rounds) c = (r.clients c ≡ true) ⊎ EventuallyReady rounds c

-- No round finds a target readable.
abbrev pub Silent : List ℕ → List Round → Type 0
Silent wait_for_error = All (λ (r : Round). select r.targets wait_for_error ≡ [])

select_perm :
    (ready : ℕ → Bool) (l : List ℕ) → Perm (select ready l ++ select (λ c. not (ready c)) l) l
unfolding select
select_perm ready [] = Perm.refl []
select_perm ready (c ∷ l) = elim (Bool-cases (ready c)) [
  | inl now ↦ rw now (Perm.cons c (select_perm ready l))
  | inr later ↦ rw later (
      Perm.trans (perm_middle (select ready l) (select (λ d. not (ready d)) l))
        (Perm.cons c (select_perm ready l)))
]

ready_later :
    (r : Round) (rounds : List Round) (l : List ℕ)
    → All (EventuallyReady (r ∷ rounds)) l
    → All (EventuallyReady rounds) (select (λ c. not (r.clients c)) l)
unfolding select
ready_later r rounds [] h = tt
ready_later r rounds (c ∷ l) (h, hs) = elim (Bool-cases (r.clients c)) [
  | inl now ↦ rw now (ready_later r rounds l hs)
  | inr later ↦ rw later (elim h [ inl now ↦ cc | inr soon ↦ soon ], ready_later r rounds l hs)
]

-- The clients that become readable, in another order.
served_perm :
    (rounds : List Round) (waiting : List ℕ)
    → All (EventuallyReady rounds) waiting
    → Perm (served rounds waiting) waiting
unfolding served
served_perm [] [] h = Perm.refl []
served_perm [] (c ∷ waiting) (h, _) = absurd h
served_perm (r ∷ rounds) waiting h =
    Perm.trans
      (Perm.append (Perm.refl (select r.clients waiting)) (
        served_perm rounds (select (λ c. not (r.clients c)) waiting)
          (ready_later r rounds waiting h)))
      (select_perm r.clients waiting)

select-All : (ready : ℕ → Bool) (l : List ℕ) → All (λ c. ready c ≡ true) (select ready l)
unfolding select
select-All ready [] = tt
select-All ready (c ∷ l) = elim (Bool-cases (ready c)) [
  | inl now ↦ rw now (now, select-All ready l)
  | inr later ↦ rw later (select-All ready l)
]

abbrev remove_all : List ℕ → List ℕ → List ℕ
remove_all [] waiting = waiting
remove_all (c ∷ cs) waiting = remove_all cs (remove c waiting)

-- A client that is not ready stays in front.
remove_all_skip :
    (ready : ℕ → Bool) (d : ℕ) (cs waiting : List ℕ)
    → ready d ≡ false
    → All (λ c. ready c ≡ true) cs
    → remove_all cs (d ∷ waiting) ≡ d ∷ remove_all cs waiting
unfolding remove
remove_all_skip ready d [] waiting no_d h = refl
remove_all_skip ready d (c ∷ cs) waiting no_d (h, hs) =
    let e : (d == c) ≡ false = ground arith in
    rw e (remove_all_skip ready d cs (remove c waiting) no_d hs)

remove_self : (c : ℕ) (l : List ℕ) → remove c (c ∷ l) ≡ l
unfolding remove
remove_self c l = ground arith

remove_all-select :
    (ready : ℕ → Bool) (l : List ℕ) → remove_all (select ready l) l ≡ select (λ c. not (ready c)) l
unfolding select remove
remove_all-select ready [] = refl
remove_all-select ready (c ∷ l) = elim (Bool-cases (ready c)) [
  | inl now ↦
      rw now (ap (remove_all (select ready l)) (remove_self c l) ∙ remove_all-select ready l)
  | inr later ↦ rw later (
      remove_all_skip ready c (select ready l) l later (select-All ready l)
      ∙ ap (λ (x : List ℕ). c ∷ x) (remove_all-select ready l))
]

served_nil : (rounds : List Round) → served rounds [] ≡ []
unfolding served select
served_nil [] = refl
served_nil (r ∷ rounds) = served_nil rounds

module _ {W : Type 0} (unmarshall : ℕ → Exec W (Unit {0})) where
  each_nil : (w : W) → pure tt w ≡ each unmarshall [] w
  unfolding each
  each_nil w = refl

  serve_lem :
      (cs waiting : List ℕ) (w : W)
      → serve unmarshall cs waiting w ≡ (each unmarshall cs >>= λ _. pure (remove_all cs waiting)) w
  unfolding serve each
  serve_lem [] waiting w = refl
  serve_lem (c ∷ cs) waiting w =
      bind_ext (unmarshall c) _
        (λ _. each unmarshall cs >>= λ _. pure (remove_all cs (remove c waiting))) w
        (λ _. serve_lem cs (remove c waiting))
      ∙ sym (bind_assoc (unmarshall c) (λ _. each unmarshall cs) _ w)

  -- If each client becomes readable in some round and no target in any, the loop unmarshalls the
  -- clients one after the other in the order in which they become readable, and does nothing else.
  pub poll_lem :
      (rounds : List Round) (wait_for_error waiting : List ℕ) (w : W)
      → All (EventuallyReady rounds) waiting
      → Silent wait_for_error rounds
      → poll unmarshall rounds wait_for_error waiting w ≡ each unmarshall (served rounds waiting) w
  unfolding poll served
  poll_lem [] wait_for_error [] w h quiet = each_nil w
  poll_lem [] wait_for_error (c ∷ l) w (h, _) quiet = absurd h
  poll_lem (r ∷ rounds) wait_for_error [] w h quiet = rw (served_nil (r ∷ rounds)) (each_nil w)
  poll_lem (r ∷ rounds) wait_for_error (c ∷ l) w h (q, quiet) =
      let chosen = select r.clients (c ∷ l) in
      let rest = select (λ d. not (r.clients d)) (c ∷ l) in
      let next = λ (waiting : List ℕ).
        expect_silence {W = W} (select r.targets wait_for_error)
        >> poll unmarshall rounds wait_for_error waiting in
      ap (λ (x : Outcome (List ℕ) × W). resume x.0 next x.1) (serve_lem chosen (c ∷ l) w)
      ∙ bind_assoc (each unmarshall chosen) (λ _. pure (remove_all chosen (c ∷ l))) next w
      ∙ bind_ext (each unmarshall chosen) (λ _. next (remove_all chosen (c ∷ l)))
          (λ _. each unmarshall (served rounds rest)) w
          (λ _ v.
            rw (q, remove_all-select r.clients (c ∷ l))
              (poll_lem rounds wait_for_error rest v (ready_later r rounds (c ∷ l) h) quiet))
      ∙ sym (each-append unmarshall chosen (served rounds rest) w)

  -- If each client becomes readable in some round and no target in any, the loop unmarshalls every
  -- client that it waits for, each one as often as it waits for it, in some order, and nothing else.
  pub poll_perm :
      (rounds : List Round) (wait_for_error waiting : List ℕ) (w : W)
      → All (EventuallyReady rounds) waiting
      → Silent wait_for_error rounds
      → (order : List ℕ) × Perm order waiting
        × (poll unmarshall rounds wait_for_error waiting w ≡ each unmarshall order w)
  poll_perm rounds wait_for_error waiting w h quiet = (
    served rounds waiting,
    served_perm rounds waiting h,
    poll_lem rounds wait_for_error waiting w h quiet,
  )
