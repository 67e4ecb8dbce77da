-- ===== src/Webhook.antt =====
-- internal/controller/webhook_common.go: the webhook client and its cache of recent requests.
-- Durations and times are numbers. time.Now reads a clock that never goes back, so that time.Since
-- of a stored time is a truncated difference. One call reads the clock once before the request
-- (`now`) and once after it.
pub mod Caching
use cloudkit_operator.Prelude.{
  ℕ, ◌+◌, ◌-◌, ◌<◌, String, Bool, ◌&&◌, ◌||◌, not, Option, none, some, List, [], ◌∷◌, ◌++◌, ltb,
  leb, ◌==◌, if◌then◌else◌, join_text, Result, ok, err, plain, wrapped, Handler, pure, raise, lift,
  wrap, ◌>>=◌, ◌>>◌,
}
use cloudkit_operator.Strconv.{itoa}

-- webhook.Resource, with its JSON
pub record Resource : Type 0 where
  pub name : String
  pub marshal : Result String

-- What net/http does with a request: building it may fail, and sending it ends with a status code
-- or an error, after some time.
pub record Network : Type 0 where
  pub new_request : String → String → Result (Unit {0})
  pub send : ℕ → String → String → Result ℕ
  pub latency : String → String → ℕ

pub record WebhookClient : Type 0 where
  pub client_timeout : ℕ
  pub minimum_request_interval : ℕ

-- The sync.Map is a function, since it is only read by key and filtered. `posted` records the
-- requests that were sent.
pub record WebhookState : Type 0 where
  pub inflight_requests : String → Option ℕ
  pub now : ℕ
  pub posted : List (String × String)

unfoldable pub cache_key : String → String → String
cache_key url resource_name = join_text url (join_text ":" resource_name)

keep_recent : ℕ → ℕ → Option ℕ → Option ℕ
keep_recent interval now none = none
keep_recent interval now (some create_time) =
    if ltb interval (now - create_time) then none else some create_time

unfoldable pub purge_expired_requests : WebhookClient → WebhookState → WebhookState
unfolding keep_recent
purge_expired_requests wc s = record s {
  inflight_requests =
      λ key. keep_recent wc.minimum_request_interval s.now (s.inflight_requests key);
}

since : ℕ → ℕ → Option ℕ → ℕ
since interval now none = 0
since interval now (some create_time) =
    let delta = now - create_time in if leb interval delta then 0 else delta

unfoldable pub check_for_existing_request : WebhookClient → String → String → Handler WebhookState ℕ
unfolding since purge_expired_requests cache_key pure
check_for_existing_request wc url resource_name s =
    pure
      (since wc.minimum_request_interval s.now (s.inflight_requests (cache_key url resource_name)))
      (purge_expired_requests wc s)

unfoldable pub add_inflight_request :
    WebhookClient → String → String → Handler WebhookState (Unit {0})
unfolding purge_expired_requests cache_key pure
add_inflight_request wc url resource_name s = pure tt (
    purge_expired_requests wc (record s {
      inflight_requests =
          λ key. if key == cache_key url resource_name then some s.now else s.inflight_requests key;
    }))

-- client.Do: the request is sent, and time passes
send_request : Network → WebhookClient → String → String → Handler WebhookState ℕ
unfolding lift
send_request net wc url body s =
    lift (net.send wc.client_timeout url body)
      (record s { now = s.now + net.latency url body; posted = s.posted ++ (url, body) ∷ [] })

-- the status codes 200 to 299
abbrev pub is_success : ℕ → Bool
is_success code = leb 200 code && ltb code 300

unfoldable pub trigger_webhook :
    Network → WebhookClient → String → Resource → Handler WebhookState ℕ
unfolding check_for_existing_request add_inflight_request send_request lift raise pure
trigger_webhook net wc url resource = do
  delta ← check_for_existing_request wc url resource.name
  if ltb 0 delta then pure delta else do
    json_data ← wrap "failed to marshal JSON" (lift resource.marshal)
    wrap "failed to create request" (lift (net.new_request url json_data))
    code ← wrap "failed to send request" (send_request net wc url json_data)
    if not (is_success code)
        then raise (plain (join_text "received non-success status code: " (itoa code)))
        else do add_inflight_request wc url resource.name; pure 0

unfoldable pub reset_cache : WebhookState → WebhookState
reset_cache s = record s { inflight_requests = λ key. none }
