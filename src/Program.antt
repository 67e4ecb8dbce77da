-- ===== src/Program.antt =====
-- The configuration of the program: parsePollInterval, parseIntEnv, createEDAProvider,
-- createAAPProvider and createProvider of cmd/main.go, NewProvider of
-- internal/provisioning/factory.go, and GetEnvWithDefault of internal/helpers at a type whose texts
-- are parsed.
pub mod Configured
use cloudkit_operator.Prelude.{
  ℕ, zero, suc, String, Bool, Option, none, some, ◌==◌, ◌||◌, if◌then◌else◌, plain, join_text,
  Result, ok, err,
}
use cloudkit_operator.Strconv.{ℤ, pos, negsuc, atoi}
use cloudkit_operator.Webhook.{WebhookClient}
use cloudkit_operator.Aap.{ClientConfig}
use cloudkit_operator.Provisioning.Eda.{EdaProvider}
use cloudkit_operator.Provisioning.Aap.{AapProvider}

-- os.Getenv and time.ParseDuration; a duration may be negative
pub record Environment : Type 0 where
  pub getenv : String → String
  pub parse_duration : String → Option ℤ

pub data Provider : Type 0 where
  eda : EdaProvider → Provider
  aap : ClientConfig → AapProvider → Provider

-- A nil client is `none`.
pub record ProviderConfig : Type 0 where
  pub provider_type : String
  pub webhook_client : Option WebhookClient
  pub provision_webhook : String
  pub deprovision_webhook : String
  pub aap_client : Option ClientConfig
  pub provision_template : String
  pub deprovision_template : String

abbrev pub provider_type_eda : String
provider_type_eda = "eda"

abbrev pub provider_type_aap : String
provider_type_aap = "aap"

-- 30 seconds, in nanoseconds
abbrev pub default_status_poll_interval : ℤ
default_status_poll_interval = pos 30000000000

eda_with : ProviderConfig → Option WebhookClient → Result Provider
eda_with config none = err (plain "EDA provider requires WebhookClient")
eda_with config (some client) =
    if config.provision_webhook == "" || config.deprovision_webhook == ""
    then err (plain "EDA provider requires both ProvisionWebhook and DeprovisionWebhook")
    else ok (
        eda (record {
          webhook_client = client;
          create_url = config.provision_webhook;
          delete_url = config.deprovision_webhook;
        }))

aap_with : ProviderConfig → Option ClientConfig → Result Provider
aap_with config none = err (plain "AAP provider requires AAPClient")
aap_with config (some client) = ok (
    aap client (record {
      provision_template = config.provision_template;
      deprovision_template = config.deprovision_template;
    }))

unfoldable pub new_provider : ProviderConfig → Result Provider
unfolding eda_with aap_with
new_provider config =
    if config.provider_type == provider_type_eda
    then eda_with config config.webhook_client
    else if config.provider_type == provider_type_aap
    then aap_with config config.aap_client
    else err (plain (join_text "unknown provider type: " config.provider_type))

abbrev or_default : ℤ → Option ℤ → ℤ
or_default default none = default
or_default default (some value) = value

unfoldable pub parse_poll_interval : Environment → String → ℤ → ℤ
parse_poll_interval e env_var default =
    if e.getenv env_var == ""
    then default
    else or_default default (e.parse_duration (e.getenv env_var))

abbrev pub at_least_one : ℤ → Option ℤ → ℤ
at_least_one default none = default
at_least_one default (some (negsuc n)) = default
at_least_one default (some (pos zero)) = default
at_least_one default (some (pos (suc n))) = pos (suc n)

unfoldable pub parse_int_env : Environment → String → ℤ → ℤ
unfolding atoi
parse_int_env e env_var default =
    if e.getenv env_var == "" then default else at_least_one default (atoi (e.getenv env_var))

abbrev parsed_or : {T : Type 0} → T → Option T → T
parsed_or default none = default
parsed_or default (some value) = value

-- the result of the parser of the type, or the default
unfoldable pub get_env_with_default :
    {T : Type 0} → Environment → (String → Option T) → String → T → T
get_env_with_default e parse name default =
    if e.getenv name == "" then default else parsed_or default (parse (e.getenv name))

created : ℤ → Result Provider → Result (Provider × ℤ)
created interval (ok provider) = ok (provider, interval)
created interval (err e) = err e

-- NewWebhookClient is given 10 seconds.
unfoldable pub create_eda_provider : String → String → ℕ → Result (Provider × ℤ)
unfolding created new_provider
create_eda_provider provision deprovision minimum_request_interval =
    created default_status_poll_interval (
      new_provider (record {
        provider_type = provider_type_eda;
        webhook_client = some (record {
          client_timeout = 10000000000;
          minimum_request_interval = minimum_request_interval;
        });
        provision_webhook = provision;
        deprovision_webhook = deprovision;
        aap_client = none;
        provision_template = "";
        deprovision_template = "";
      }))

unfoldable pub create_aap_provider :
    Environment → String → String → String → String → Result (Provider × ℤ)
unfolding created new_provider parse_poll_interval
create_aap_provider e url token provision_template deprovision_template =
    created (parse_poll_interval e "CLOUDKIT_AAP_STATUS_POLL_INTERVAL" default_status_poll_interval)
      (new_provider (record {
        provider_type = provider_type_aap;
        webhook_client = none;
        provision_webhook = "";
        deprovision_webhook = "";
        aap_client = some (record { base_url = url; token = token });
        provision_template = provision_template;
        deprovision_template = deprovision_template;
      }))

-- the arguments of createProvider
pub record ProviderSettings : Type 0 where
  pub provider_type : String
  pub provision_webhook : String
  pub deprovision_webhook : String
  pub aap_url : String
  pub aap_token : String
  pub provision_template : String
  pub deprovision_template : String
  pub minimum_request_interval : ℕ

unfoldable pub create_provider : Environment → ProviderSettings → Result (Provider × ℤ)
unfolding create_eda_provider create_aap_provider
create_provider e s =
    if s.provider_type == provider_type_eda
    then create_eda_provider s.provision_webhook s.deprovision_webhook s.minimum_request_interval
    else if s.provider_type == provider_type_aap
    then create_aap_provider e s.aap_url s.aap_token s.provision_template s.deprovision_template
    else err (plain (join_text "unknown provider type: " s.provider_type))
