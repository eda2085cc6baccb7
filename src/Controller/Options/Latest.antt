-- ===== src/Controller/Options/Latest.antt =====
-- What `parse_args` makes of the occurrences of `--client`.
use ipbench.Prelude.{List, [], ◌∷◌, ◌++◌, ◌≡◌, sym, ◌∙◌, append_assoc, append-nil, ap}
use ipbench.Python.Text.{Text}
use ipbench.Python.Outcome.{returned, and_then-eq-returned, returned-injective}
use ipbench.Controller.Options.{
  Options, Argument, client, port, test_port, target_test_port, integer, apply, apply_all,
  parse_args, defaults,
}

-- The hosts that `--client` names, in order.
abbrev pub named : Argument → List Text
named (client v) = v ∷ []
named a = []

abbrev pub all_named : List Argument → List Text
all_named [] = []
all_named (a ∷ l) = named a ++ all_named l

apply-clients :
    (a : Argument) (o o' : Options) → apply a o ≡ returned o' → o'.clients ≡ o.clients ++ named a
unfolding apply
apply-clients (client v) o o' h = ap (λ (x : Options). x.clients) (sym (returned-injective _ o' h))
apply-clients (port v) o o' h =
    let (n, e, f) = and_then-eq-returned (integer v) _ o' h in
    ap (λ (x : Options). x.clients) (sym (returned-injective _ o' f)) ∙ sym (append-nil o.clients)
apply-clients (test_port v) o o' h =
    let (n, e, f) = and_then-eq-returned (integer v) _ o' h in
    ap (λ (x : Options). x.clients) (sym (returned-injective _ o' f)) ∙ sym (append-nil o.clients)
apply-clients (target_test_port v) o o' h =
    let (n, e, f) = and_then-eq-returned (integer v) _ o' h in
    ap (λ (x : Options). x.clients) (sym (returned-injective _ o' f)) ∙ sym (append-nil o.clients)
apply-clients _ o o' h =
    ap (λ (x : Options). x.clients) (sym (returned-injective _ o' h)) ∙ sym (append-nil o.clients)

apply_all-clients :
    (l : List Argument) (o o' : Options)
    → apply_all l o ≡ returned o'
    → o'.clients ≡ o.clients ++ all_named l
unfolding apply_all
apply_all-clients [] o o' h =
    ap (λ (x : Options). x.clients) (sym (returned-injective o o' h)) ∙ sym (append-nil o.clients)
apply_all-clients (a ∷ l) o o' h =
    let (o₁, e, f) = and_then-eq-returned (apply a o) (λ p. apply_all l p) o' h in
    apply_all-clients l o₁ o' f
    ∙ ap (λ (x : List Text). x ++ all_named l) (apply-clients a o o₁ e)
    ∙ append_assoc o.clients (named a) (all_named l)

-- If the command line can be parsed, the clients are the hosts that `--client` names, in order and
-- as often as they are named.
pub parse_args-clients :
    (l : List Argument) (o : Options) → parse_args l ≡ returned o → o.clients ≡ all_named l
unfolding parse_args
parse_args-clients l o h = apply_all-clients l defaults o h
