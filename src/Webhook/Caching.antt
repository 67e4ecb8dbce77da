-- ===== src/Webhook/Caching.antt =====
-- What the cache of recent requests (internal/controller/webhook_common.go) keeps from being sent.
use cloudkit_operator.Prelude.{
  ℕ, ◌+◌, ◌-◌, ◌<◌, ◌≤◌, String, ◌≡◌, sym, inl, inr, Option-cases, ◌∙◌, true, none, some, [], ◌∷◌,
  ◌++◌, GoError, ◌⊎◌, arith, eq_iff, ok, done, failed,
}
use cloudkit_operator.Webhook.{
  Resource, Network, WebhookClient, WebhookState, cache_key, trigger_webhook, is_success,
}

-- time passes
abbrev pub later : ℕ → WebhookState → WebhookState
later elapsed s = record s { now = s.now + elapsed }

-- the request goes through: it can be built, it is answered, and by a status code of success
pub record IsAccepted (net : Network) (wc : WebhookClient) (url body : String) : Type 0 where
  pub built : net.new_request url body ≡ ok tt
  pub code : ℕ
  pub answered : net.send wc.client_timeout url body ≡ ok code
  pub success : is_success code ≡ true

-- no request for the key holds the next one back
abbrev pub IsFree : WebhookClient → String → WebhookState → Type 0
IsFree wc key s =
    (t : ℕ) → s.inflight_requests key ≡ some t → t + wc.minimum_request_interval ≤ s.now

module _ (net : Network) (wc : WebhookClient) (url : String) (r : Resource) where
  -- Within the window after a request for the same URL and resource name, nothing is posted, no
  -- error is returned, and the call returns the time since that request.
  pub trigger_webhook-suppressed :
      (s : WebhookState) (t : ℕ)
      → s.inflight_requests (cache_key url r.name) ≡ some t
      → t < s.now
      → s.now < t + wc.minimum_request_interval
      → (trigger_webhook net wc url r s).0 ≡ done (s.now - t)
        × ((trigger_webhook net wc url r s).1.posted ≡ s.posted)
        × ((trigger_webhook net wc url r s).1.inflight_requests (cache_key url r.name) ≡ some t)
  unfolding trigger_webhook
  trigger_webhook-suppressed s t e after within = (ground arith, ground arith, ground arith)

  -- A request that succeeds is posted once, and is remembered at the time of its answer.
  pub trigger_webhook-sent :
      (s : WebhookState) (body : String)
      → IsFree wc (cache_key url r.name) s
      → r.marshal ≡ ok body
      → IsAccepted net wc url body
      → ((trigger_webhook net wc url r s).0 ≡ done 0)
        × ((trigger_webhook net wc url r s).1.posted ≡ s.posted ++ (url, body) ∷ [])
        × ((trigger_webhook net wc url r s).1.inflight_requests (cache_key url r.name)
            ≡ some (trigger_webhook net wc url r s).1.now)
  unfolding trigger_webhook
  trigger_webhook-sent s body free m a =
      elim (Option-cases (s.inflight_requests (cache_key url r.name))) [
        | inl e ↦ (
          ground arith,
          ground arith,
          ground (arith, eq_iff (cache_key url r.name) (cache_key url r.name)),
        )
        | inr (t, e) ↦
            let old = free t e in
            (
              ground arith,
              ground arith,
              ground (arith, eq_iff (cache_key url r.name) (cache_key url r.name)),
            )
      ]

  trigger_webhook-no_entry :
      (s : WebhookState) (x : GoError)
      → (trigger_webhook net wc url r s).0 ≡ failed x
      → (key : String)
      → ((trigger_webhook net wc url r s).1.inflight_requests key ≡ none)
        ⊎ ((trigger_webhook net wc url r s).1.inflight_requests key ≡ s.inflight_requests key)
  unfolding trigger_webhook
  trigger_webhook-no_entry s x h key = ground arith

  trigger_webhook-passed :
      (s : WebhookState) (x : GoError) (t : ℕ)
      → (trigger_webhook net wc url r s).0 ≡ failed x
      → s.inflight_requests (cache_key url r.name) ≡ some t
      → t < s.now
      → t + wc.minimum_request_interval ≤ (trigger_webhook net wc url r s).1.now
  unfolding trigger_webhook
  trigger_webhook-passed s x t h e before = ground arith

module _ (net next : Network) (wc : WebhookClient) (url : String) (r again : Resource)
    (same : again.name ≡ r.name) where
  -- After a request that failed, no entry for any key is new or changed, and if no entry for the URL
  -- and resource name was made at the very moment of the request or later, a second request of the
  -- same URL and resource name is not held back: made at whatever moment after the failure, it is
  -- posted and returns no time to wait, if its own encoding succeeds and the network accepts it.
  pub trigger_webhook-failed :
      (s : WebhookState) (x : GoError) (body : String) (elapsed : ℕ)
      → (trigger_webhook net wc url r s).0 ≡ failed x
      → ((t : ℕ) → s.inflight_requests (cache_key url r.name) ≡ some t → t < s.now)
      → again.marshal ≡ ok body
      → IsAccepted next wc url body
      → let s' = (trigger_webhook net wc url r s).1 in
        ((key : String)
          → (s'.inflight_requests key ≡ none)
            ⊎ (s'.inflight_requests key ≡ s.inflight_requests key))
        × ((trigger_webhook next wc url again (later elapsed s')).0 ≡ done 0)
        × ((trigger_webhook next wc url again (later elapsed s')).1.posted
            ≡ s'.posted ++ (url, body) ∷ [])
  trigger_webhook-failed s x body elapsed h before m a =
      let s' = (trigger_webhook net wc url r s).1 in
      let free : IsFree wc (cache_key url again.name) (later elapsed s') = rw same (λ t found.
        elim (trigger_webhook-no_entry net wc url r s x h (cache_key url r.name)) [
          | inl gone ↦ absurd (ground (arith, gone, found))
          | inr kept ↦
              let stored = sym kept ∙ found in
              let passed = trigger_webhook-passed net wc url r s x t h stored (before t stored) in
              omega (arith, passed)
        ]) in
      let (answer, posted, remembered) =
        trigger_webhook-sent next wc url again (later elapsed s') body free m a in
      (trigger_webhook-no_entry net wc url r s x h, answer, posted)

  -- If there is no entry for a URL and resource name, or the window since it has passed, a request
  -- that succeeds is posted, and a second one for the same URL and resource name, whatever its body,
  -- within the window after the answer but not at the same moment, posts nothing.
  pub trigger_twice-posts_once :
      (s : WebhookState) (body : String) (elapsed : ℕ)
      → IsFree wc (cache_key url r.name) s
      → r.marshal ≡ ok body
      → IsAccepted net wc url body
      → 0 < elapsed
      → elapsed < wc.minimum_request_interval
      → (trigger_webhook next wc url again
          (later elapsed (trigger_webhook net wc url r s).1)).1.posted
        ≡ s.posted ++ (url, body) ∷ []
  trigger_twice-posts_once s body elapsed free m a some_time within =
      let s' = (trigger_webhook net wc url r s).1 in
      let (answer, posted, remembered) = trigger_webhook-sent net wc url r s body free m a in
      let (quiet, unsent, kept) =
        trigger_webhook-suppressed next wc url again (later elapsed s') s'.now (rw same remembered)
          (omega arith) (omega arith) in
      unsent ∙ posted
