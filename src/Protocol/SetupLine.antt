-- ===== src/Protocol/SetupLine.antt =====
-- The line of SETUP on its way: `setup` of `IpbenchTestClient` against `setup` of `IpbenchClient`.
use ipbench.Prelude.{
  none, suc, ap, List, take-append, subst, ℕ, ◌-◌, ◌≡◌, ◌≢◌, refl, ◌∙◌, some, [], ◌∷◌, ◌++◌, arith,
  pos, negsuc, All-append, All-mono, length, length-append, min,
}
use ipbench.Python.Text.{Text, codes, slice, split_pair}
use ipbench.Python.Text.Search.{Lacks}
use ipbench.Python.Text.Split.{split_pair-append, split_pair_whole}
use ipbench.Python.Number.{decimal}
use ipbench.Python.Number.RoundTrip.{IsDigit, decimal-IsDigit, int-decimal}
use ipbench.Python.Outcome.{returned}
use ipbench.Daemon.Commands.{SetupArgs, assign, assign_parts, assign_all, setup_args}
use ipbench.Controller.Target.{target_arguments}
use ipbench.Controller.Client.{setup_arguments}

Lacks-digit : (d : ℕ) (n : ℕ) → (IsDigit d → ⊥) → Lacks d (decimal n)
Lacks-digit d n h = All-mono (decimal n) (λ c hc e. h (subst IsDigit e hc)) (decimal-IsDigit n)

-- A part `name::value` of the arguments.
assign_part :
    (name value : Text) (a : SetupArgs)
    → Lacks b':' name
    → Lacks b':' value
    → assign_parts (split_pair b':' (name ++ b':' ∷ b':' ∷ value)) a ≡ assign name value a
unfolding assign_parts
assign_part name value a hn hv =
    rw (split_pair-append b':' name value hn, split_pair_whole b':' value hv)

slice_quoted : (args : Text) → slice (pos 1) (negsuc 0) (b'"' ∷ (args ++ b'"' ∷ [])) ≡ args
slice_quoted args =
    let n = length-append args (b'"' ∷ []) in
    let e : min 1 (suc (length (args ++ b'"' ∷ []))) ≡ 1 = omega arith in
    let f : suc (length (args ++ b'"' ∷ [])) - 1 - 1 ≡ length args = omega (arith, n) in
    rw (e, f) (take-append args (b'"' ∷ []))

-- The three parts, each of which one round of the loop assigns.
assign_target :
    (target : Text) (a : SetupArgs)
    → Lacks b':' target
    → assign_parts (split_pair b':' (codes "target::" ++ target)) a
      ≡ returned (record a { test_target = some target })
unfolding assign
assign_target target a h = assign_part (codes "target") target a (omega arith) h

assign_port :
    (port : ℕ) (a : SetupArgs)
    → assign_parts (split_pair b':' (codes "port::" ++ decimal port)) a
      ≡ returned (record a { test_port = some (pos port) })
unfolding assign
assign_port port a =
    assign_part (codes "port") (decimal port) a (omega arith) (Lacks-digit b':' port (λ h. cc))
    ∙ rw (int-decimal port) refl

assign_args :
    (args : Text) (a : SetupArgs)
    → Lacks b':' args
    → assign_parts (split_pair b':' (codes "args::\"" ++ (args ++ codes "\""))) a
      ≡ returned (record a { test_args = some args })
unfolding assign
assign_args args a h =
    assign_part (codes "args") (b'"' ∷ (args ++ b'"' ∷ [])) a (omega arith)
      ((omega arith), All-append (λ d. d ≢ b':') args (b'"' ∷ []) h (omega arith))
    ∙ ap (λ (s : Text). returned (record a { test_args = some s })) (slice_quoted args)

split-setup_arguments :
    (target : Text) (port : ℕ) (args : Text)
    → Lacks b'|' target
    → Lacks b'|' args
    → split_pair b'|' (setup_arguments target (pos port) args)
      ≡ (codes "target::" ++ target)
        ∷ (codes "port::" ++ decimal port)
        ∷ (codes "args::\"" ++ (args ++ codes "\""))
        ∷ []
split-setup_arguments target port args t_bar a_bar =
    let p1 = codes "target::" ++ target in
    let p2 = codes "port::" ++ decimal port in
    let p3 = codes "args::\"" ++ (args ++ codes "\"") in
    let l1 = All-append (λ d. d ≢ b'|') (codes "target::") target (omega arith) t_bar in
    let l2 =
      All-append (λ d. d ≢ b'|') (codes "port::") (decimal port) (omega arith)
        (Lacks-digit b'|' port (λ h. cc)) in
    let l3 =
      All-append (λ d. d ≢ b'|') (codes "args::\"") (args ++ codes "\"") (omega arith)
        (All-append (λ d. d ≢ b'|') args (codes "\"") a_bar (omega arith)) in
    split_pair-append b'|' p1 _ l1
    ∙ ap (λ (l : List Text). p1 ∷ l)
        (split_pair-append b'|' p2 p3 l2
          ∙ ap (λ (l : List Text). p2 ∷ l) (split_pair_whole b'|' p3 l3))

-- The daemon reads from the arguments that the controller sends the target, the port and the test's
-- arguments, if neither the target nor the test's arguments hold a colon or a bar.
pub setup_args-setup_arguments :
    (target : Text) (port : ℕ) (args : Text)
    → Lacks b':' target
    → Lacks b'|' target
    → Lacks b':' args
    → Lacks b'|' args
    → setup_args (setup_arguments target (pos port) args)
      ≡ returned
          (record { test_target = some target; test_port = some (pos port); test_args = some args })
unfolding setup_args assign_all
setup_args-setup_arguments target port args t_colon t_bar a_colon a_bar =
    rw
      (
        split-setup_arguments target port args t_bar a_bar,
        assign_target target _ t_colon,
        assign_port port,
        assign_args args _ a_colon,
      )
      refl

-- From the arguments that the controller sends to a target, the daemon reads the test's arguments,
-- and neither a target nor a port, if they hold neither a colon nor a bar.
pub setup_args-target_arguments :
    (args : Text)
    → Lacks b':' args
    → Lacks b'|' args
    → setup_args (target_arguments args)
      ≡ returned (record { test_target = none; test_port = none; test_args = some args })
unfolding setup_args assign_all
setup_args-target_arguments args colon bar =
    let lacks =
      All-append (λ d. d ≢ b'|') (codes "args::\"") (args ++ codes "\"") (omega arith)
        (All-append (λ d. d ≢ b'|') args (codes "\"") bar (omega arith)) in
    rw (split_pair_whole b'|' (target_arguments args) lacks, assign_args args _ colon) refl
