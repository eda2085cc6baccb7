-- ===== src/Daemon/Main/Address.antt =====
-- On which port the daemon listens, and in which mode it serves.
use ipbench.Prelude.{
  ℤ, pos, Bool, true, false, Option, none, some, List, [], ◌∷◌, ◌≡◌, refl, sym, ◌∙◌, ap,
  if◌then◌else◌, Bool-cases, inl, inr,
}
use ipbench.Python.Number.{int}
use ipbench.Python.Outcome.{
  returned, exit_usage, or_raise, and_then-eq-returned, returned-injective,
}
use ipbench.Daemon.Main.{
  Options, Argument, with_debug, with_target, ip, port, apply, apply_all, defaults,
  with_target_port, server_options,
}

-- --target occurs.
abbrev pub any_target : List Argument → Bool
any_target [] = false
any_target (with_target ∷ l) = true
any_target (a ∷ l) = any_target l

abbrev pub or_keep : ℤ → Option ℤ → ℤ
or_keep d none = d
or_keep d (some n) = n

-- The value of the last --port, or the given one.
abbrev pub last_port : ℤ → List Argument → ℤ
last_port d [] = d
last_port d (port v ∷ l) = last_port (or_keep d (int v)) l
last_port d (a ∷ l) = last_port d l

-- The value of an option that is set for good.
abbrev pub or_set : Bool → Bool → Bool
or_set true b = true
or_set false b = b

or_set-true : (b : Bool) → or_set b true ≡ true
or_set-true true = refl
or_set-true false = refl

or_set-false : (b : Bool) → or_set b false ≡ b
or_set-false true = refl
or_set-false false = refl

or_raise-returned : (v : Option ℤ) (d n : ℤ) → or_raise exit_usage v ≡ returned n → or_keep d v ≡ n
or_raise-returned none d n e = cc
or_raise-returned (some m) d n e = returned-injective m n e

apply_all_lem :
    (l : List Argument) (o o' : Options)
    → apply_all l o ≡ returned o'
    → (o'.target ≡ or_set o.target (any_target l)) × (o'.port ≡ last_port o.port l)
unfolding apply_all apply
apply_all_lem [] o o' h =
    let e = returned-injective o o' h in
    (
      ap (λ (x : Options). x.target) (sym e) ∙ sym (or_set-false o.target),
      ap (λ (x : Options). x.port) (sym e),
    )
apply_all_lem (with_debug ∷ l) o o' h = apply_all_lem l _ o' h
apply_all_lem (with_target ∷ l) o o' h =
    let (t, p) = apply_all_lem l (record o { target = true }) o' h in
    (t ∙ sym (or_set-true o.target), p)
apply_all_lem (ip v ∷ l) o o' h = apply_all_lem l _ o' h
apply_all_lem (port v ∷ l) o o' h =
    let (o₁, e, f) = and_then-eq-returned (apply (port v) o) (λ x. apply_all l x) o' h in
    let (n, e', f') = and_then-eq-returned (or_raise exit_usage (int v)) _ o₁ e in
    let same = returned-injective _ o₁ f' in
    let (t, p) = apply_all_lem l o₁ o' f in
    (
      t ∙ ap (λ (x : Options). or_set x.target (any_target l)) (sym same),
      p
          ∙ ap (λ (x : Options). last_port x.port l) (sym same)
          ∙ ap (λ m. last_port m l) (sym (or_raise-returned (int v) o.port n e')),
    )

with_target_port_lem :
    (o : Options)
    → ((with_target_port o).target ≡ o.target)
      × ((with_target_port o).port ≡ (if o.target then pos 8037 else o.port))
with_target_port_lem o = elim (Bool-cases o.target) [
  | inl set ↦ rw set (refl, refl)
  | inr unset ↦ rw unset (refl, refl)
]

-- If the command line can be parsed, the daemon serves as a target exactly if --target occurs. A
-- target listens on port 8037, whatever --port says, before or behind it; every other daemon on the
-- port of the last --port, and without one on port 8036.
pub server_options_lem :
    (l : List Argument) (o : Options)
    → server_options l ≡ returned o
    → (o.target ≡ any_target l)
      × (o.port ≡ (if any_target l then pos 8037 else last_port (pos 8036) l))
unfolding server_options
server_options_lem l o h =
    let (o₁, e, f) = and_then-eq-returned (apply_all l defaults) _ o h in
    let (t, p) = apply_all_lem l defaults o₁ e in
    let same = returned-injective _ o f in
    let (t', p') = with_target_port_lem o₁ in
    (
      ap (λ (x : Options). x.target) (sym same) ∙ t' ∙ t,
      ap (λ (x : Options). x.port) (sym same)
          ∙ p'
          ∙ ap (λ b. if b then pos 8037 else o₁.port) t
          ∙ ap (λ n. if any_target l then pos 8037 else n) p,
    )
