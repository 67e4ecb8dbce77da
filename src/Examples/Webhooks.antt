-- ===== src/Examples/Webhooks.antt =====
-- The webhook client.
use cloudkit_operator.Prelude.{
  ◌≡◌, ◌⊎◌, refl, arith, none, some, String, GoError, ◌++◌, [], ◌∷◌, ok, err, done, plain, wrapped,
}
use cloudkit_operator.Webhook.{Resource, Network, WebhookState, cache_key, trigger_webhook}
use cloudkit_operator.Webhook.Caching.{
  later, IsAccepted, trigger_webhook-suppressed, trigger_webhook-failed, trigger_twice-posts_once,
}
use cloudkit_operator.Examples.Samples.{net, webhook_client, resource}

abbrev asked_before : WebhookState
asked_before = record { inflight_requests = λ key. some 5; now = 8; posted = [] }

trigger_webhook-suppressed_example :
    ((trigger_webhook net webhook_client "u" resource asked_before).0 ≡ done 3)
    × ((trigger_webhook net webhook_client "u" resource asked_before).1.posted ≡ [])
    × ((trigger_webhook net webhook_client "u" resource asked_before).1.inflight_requests
          (cache_key "u" "vm")
        ≡ some 5)
trigger_webhook-suppressed_example =
    trigger_webhook-suppressed net webhook_client "u" resource asked_before 5 refl (omega arith)
      (omega arith)

abbrev broken : Network
broken = record {
  new_request = λ url body. err (plain "bad url");
  send = λ t url body. ok 200;
  latency = λ url body. 1;
}

abbrev long_after : WebhookState
long_after = record asked_before { now = 500 }

abbrev accepted : IsAccepted net webhook_client "u" "{}"
accepted = record { built = refl; code = 200; answered = refl; success = refl }

abbrev bad_url : GoError
bad_url = wrapped "failed to create request" (plain "bad url")

abbrev after_failure : WebhookState
unfolding trigger_webhook
after_failure = (trigger_webhook broken webhook_client "u" resource long_after).1

trigger_webhook-failed_example :
    ((key : String)
      → (after_failure.inflight_requests key ≡ none)
        ⊎ (after_failure.inflight_requests key ≡ long_after.inflight_requests key))
    × ((trigger_webhook net webhook_client "u" resource (later 0 after_failure)).0 ≡ done 0)
    × ((trigger_webhook net webhook_client "u" resource (later 0 after_failure)).1.posted
        ≡ after_failure.posted ++ ("u", "{}") ∷ [])
unfolding trigger_webhook
trigger_webhook-failed_example =
    trigger_webhook-failed broken net webhook_client "u" resource resource refl long_after bad_url
      "{}" 0 refl (λ t found. ground (arith, found)) refl accepted

abbrev changed : Resource
changed = record resource { marshal = ok "{changed}" }

trigger_twice-posts_once_example :
    (trigger_webhook broken webhook_client "u" changed
      (later 3 (trigger_webhook net webhook_client "u" resource long_after).1)).1.posted
    ≡ ("u", "{}") ∷ []
trigger_twice-posts_once_example =
    trigger_twice-posts_once net broken webhook_client "u" resource changed refl long_after "{}" 3
      (λ t found. ground (arith, found)) refl accepted (omega arith) (omega arith)
