-- ===== src/Program/Configured.antt =====
-- What the program's configuration (cmd/main.go, internal/provisioning/factory.go) guarantees.
use mathlib.Core.Path.{subst}
use cloudkit_operator.Prelude.{
  zero, suc, ◌<◌, ◌≡◌, refl, String, Bool-cases, Option, none, some, ok, inl, inr, ◌==◌, false,
  arith,
}
use cloudkit_operator.Strconv.{ℤ, pos, negsuc, atoi}
use cloudkit_operator.Program.{
  Environment, Provider, eda, aap, ProviderSettings, create_provider, create_eda_provider,
  create_aap_provider, new_provider, parse_int_env, at_least_one, default_status_poll_interval,
}

abbrev pub IsPositive : ℤ → Type 0
IsPositive (pos n) = 0 < n
IsPositive (negsuc n) = ⊥

at_least_one-IsPositive :
    (default : ℤ) (o : Option ℤ) → IsPositive default → IsPositive (at_least_one default o)
at_least_one-IsPositive default none h = h
at_least_one-IsPositive default (some (negsuc n)) h = h
at_least_one-IsPositive default (some (pos zero)) h = h
at_least_one-IsPositive default (some (pos (suc n))) h = omega arith

-- A number that is read from the environment is at least 1 if its default is, whatever the variable
-- holds.
pub parse_int_env-IsPositive :
    (e : Environment) (env_var : String) (default : ℤ)
    → IsPositive default
    → IsPositive (parse_int_env e env_var default)
unfolding parse_int_env
parse_int_env-IsPositive e env_var default h = elim (Bool-cases (e.getenv env_var == "")) [
  | inl unset ↦ rw unset h
  | inr set ↦ rw set (at_least_one-IsPositive default (atoi (e.getenv env_var)) h)
]

ok_unique : {A : Type 0} {a b : A} → ok a ≡ ok b → a ≡ b
ok_unique h = cc

-- what createProvider promises of a provider
abbrev pub IsConfigured : ProviderSettings → Provider × ℤ → Type 0
IsConfigured s (eda p, interval) =
    (p.create_url ≡ s.provision_webhook)
    × (p.delete_url ≡ s.deprovision_webhook)
    × ((p.create_url == "") ≡ false)
    × ((p.delete_url == "") ≡ false)
    × (interval ≡ default_status_poll_interval)
IsConfigured s (aap c p, interval) =
    (c.base_url ≡ s.aap_url)
    × (c.token ≡ s.aap_token)
    × (p.provision_template ≡ s.provision_template)
    × (p.deprovision_template ≡ s.deprovision_template)

-- A provider that createProvider returns has the URLs or the templates of the settings, and an EDA
-- provider has both of its URLs set; without them createProvider returns an error.
pub create_provider-IsConfigured :
    (e : Environment) (s : ProviderSettings) (made : Provider × ℤ)
    → create_provider e s ≡ ok made
    → IsConfigured s made
unfolding create_provider create_eda_provider create_aap_provider new_provider
create_provider-IsConfigured e s made = elim (Bool-cases (s.provider_type == "eda")) [
  | inl is_eda ↦ rw is_eda (elim (Bool-cases (s.provision_webhook == "")) [
    | inl unset ↦ rw unset (λ h. absurd (cc))
    | inr create ↦ elim (Bool-cases (s.deprovision_webhook == "")) [
      | inl unset ↦ rw (create, unset) (λ h. absurd (cc))
      | inr delete ↦
          rw (create, delete)
            (λ h. subst (IsConfigured s) (ok_unique h) (refl, refl, create, delete, refl))
    ]
  ])
  | inr other ↦ elim (Bool-cases (s.provider_type == "aap")) [
    | inl is_aap ↦
        rw (other, is_aap) (λ h. subst (IsConfigured s) (ok_unique h) (refl, refl, refl, refl))
    | inr unknown ↦ rw (other, unknown) (λ h. absurd (cc))
  ]
]
