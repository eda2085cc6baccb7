-- ===== src/Controller/Config/Fields.antt =====
-- The attributes of a <client> of a configuration file.
use ipbench.Prelude.{ap, ◌⊎◌, inl, inr, sym, ℤ, ◌≡◌, refl, subst, Option, none, some}
use ipbench.Python.Text.{Text, codes}
use ipbench.Python.Number.{int}
use ipbench.Python.Outcome.{
  Outcome, returned, raised, stalled, or_raise, exit_failed, value_error, raised-ne-returned,
  returned-injective,
}
use ipbench.Python.Exec.{Exec, pure, lift, ◌>>=◌}
use ipbench.Python.Exec.Leaves.{Left, Leaves}
use ipbench.Controller.Options.{Options}
use ipbench.Controller.Config.{Xml, ClientSpec, get_or, str_of, int_attribute, read_client}

-- `own` where there is one, and otherwise `other`.
abbrev pub OwnOr : Option Text → Text → Text → Type 0
OwnOr own other value = (own ≡ some value) ⊎ ((own ≡ none) × (other ≡ value))

OwnOr-get_or : (own : Option Text) (other : Text) → OwnOr own other (get_or other own)
OwnOr-get_or none other = inr (refl, refl)
OwnOr-get_or (some t) other = inl refl

-- The number that `own` says where there is one, and otherwise `other`.
abbrev pub NumberOr : Option Text → ℤ → ℤ → Type 0
NumberOr own other n =
    ((t : Text) × (own ≡ some t) × (int t ≡ some n)) ⊎ ((own ≡ none) × (other ≡ n))

or_raise-eq-returned : (r : Option ℤ) (n : ℤ) → or_raise value_error r ≡ returned n → r ≡ some n
or_raise-eq-returned none n h = absurd (raised-ne-returned _ n h)
or_raise-eq-returned (some k) n h = ap (λ x. some x) (returned-injective k n h)

number_read :
    (own : Option Text) (other n : ℤ)
    → (elim own [ none ↦ returned other | some t ↦ or_raise value_error (int t) ]) ≡ returned n
    → NumberOr own other n
number_read none other n h = inr (refl, returned-injective other n h)
number_read (some t) other n h = inl (t, refl, or_raise-eq-returned (int t) n h)

module _ (X : Xml) where
  -- `int(e.get(name, default))`, where it returns.
  pub NumberOr-int_attribute :
      (name : Text) (other n : ℤ) (e : X.Element)
      → int_attribute X name other e ≡ returned n
      → NumberOr (X.get name e) other n
  NumberOr-int_attribute name other n e h = number_read (X.get name e) other n h

  -- A client that was read from the element `x` when the command line said this port, and the test had
  -- this port, these arguments and this target.
  pub record IsClientOf (port test_port : ℤ) (args target : Text) (x : X.Element) (c : ClientSpec)
      : Type 0 where
    pub hostname : X.get (codes "hostname") x ≡ some c.hostname
    pub port_read : NumberOr (X.get (codes "port") x) port c.port
    pub test_port_read : NumberOr (X.get (codes "test_port") x) test_port c.test_port
    pub test_args : OwnOr (X.get (codes "test_args") x) args c.test_args
    pub test_target :
        (t : Text) × (c.test_target ≡ some t) × OwnOr (X.get (codes "test_target") x) target t

  -- The dict that `main` appends.
  abbrev client_from : Options → X.Element → ℤ → ℤ → Text → ClientSpec
  client_from o x p tp host = record {
    hostname = host;
    port = p;
    test_port = tp;
    test_args = get_or o.test_args (X.get (codes "test_args") x);
    test_target = some (get_or (str_of o.test_target) (X.get (codes "test_target") x));
  }

  -- The round of the loop behind its reads.
  abbrev build : Options → X.Element → Outcome ℤ → Outcome ℤ → Option Text → Exec Options ClientSpec
  build o x p tp host = lift p >>= λ p'.
      lift tp >>= λ tp'. lift (or_raise exit_failed host) >>= λ h. pure (client_from o x p' tp' h)

  abbrev pub Built : Options → X.Element → ClientSpec → Options → Type 0
  Built q x c s = (s ≡ q) × IsClientOf q.port q.test_port q.test_args (str_of q.test_target) x c

  build-Left :
      (q : Options) (x : X.Element) (p tp : Outcome ℤ) (host : Option Text)
      → X.get (codes "hostname") x ≡ host
      → int_attribute X (codes "port") q.port x ≡ p
      → int_attribute X (codes "test_port") q.test_port x ≡ tp
      → Left (Built q x) (build q x p tp host q).0 (build q x p tp host q).1
  build-Left q x (returned p) (returned tp) (some h) found e e' = (
    refl,
    record {
      hostname = found;
      port_read = NumberOr-int_attribute (codes "port") q.port p x e;
      test_port_read = NumberOr-int_attribute (codes "test_port") q.test_port tp x e';
      test_args = OwnOr-get_or (X.get (codes "test_args") x) q.test_args;
      test_target = (_, refl, OwnOr-get_or (X.get (codes "test_target") x) (str_of q.test_target));
    },
  )
  build-Left q x (returned p) (returned tp) none found e e' = tt
  build-Left q x (returned p) (raised r) host found e e' = tt
  build-Left q x (returned p) stalled host found e e' = tt
  build-Left q x (raised r) tp host found e e' = tt
  build-Left q x stalled tp host found e e' = tt

  pub read_client-Leaves :
      (q : Options) (x : X.Element) → Leaves (λ s. s ≡ q) (read_client X x) (Built q x)
  unfolding read_client
  read_client-Leaves q x = record {
    from = λ s same.
        subst (λ s. Left (Built q x) (read_client X x s).0 (read_client X x s).1) (sym same)
          (build-Left q x (int_attribute X (codes "port") q.port x)
            (int_attribute X (codes "test_port") q.test_port x) (X.get (codes "hostname") x) refl
            refl refl);
  }
