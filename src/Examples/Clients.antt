-- ===== src/Examples/Clients.antt =====
-- The AAP client, at a server that answers every request in the same way.
use cloudkit_operator.Prelude.{
  ℕ, ◌≡◌, refl, true, none, [], ◌∷◌, ok, err, done, failed, plain, GoError, String,
  as_method_not_allowed, is_present,
}
use cloudkit_operator.Strconv.{pos}
use cloudkit_operator.Aap.{
  Template, job_template, AapJob, Method, get, post, Response, TemplateList, Http, ClientConfig,
  ClientState, cancel_job, get_job, get_template, do_template_request, status_error,
}
use cloudkit_operator.Aap.Errors.{Refuses, cancel_job-not_allowed}
use cloudkit_operator.Aap.Cache.{get_template-twice}

abbrev template : Template
template = record { id = pos 1; name = "t"; type = job_template }

abbrev answering : ℕ → Http (Unit {0})
answering code = record {
  marshal = λ payload. ok "{}";
  new_request = λ method url. ok tt;
  send = λ method url token body s. (done (record { status_code = code; body = ok "" }), s);
  decode_launch = λ body. ok (pos 1);
  decode_job = λ body. err (plain "no job");
  decode_can_cancel = λ body. ok true;
  decode_templates = λ body. ok (record { count = pos 1; results = template ∷ [] });
}

abbrev config : ClientConfig
config = record { base_url = "https://aap"; token = "x" }

abbrev start : ClientState (Unit {0})
start = record { template_cache = λ name. none; server = tt }

abbrev refuses :
    (method : Method) (url : String) → Refuses (answering 405) config method url 405 start
refuses method url = record {
  built = refl;
  response = record { status_code = 405; body = ok "" };
  body = "";
  answered = refl;
  has_code = refl;
  has_body = refl;
  no_success = refl;
}

abbrev unknown :
    (method : Method) (url : String) → Refuses (answering 404) config method url 404 start
unknown method url = record {
  built = refl;
  response = record { status_code = 404; body = ok "" };
  body = "";
  answered = refl;
  has_code = refl;
  has_body = refl;
  no_success = refl;
}

abbrev missing : ℕ
missing = 404

cancel_job-not_allowed_example :
    (e : GoError) × ((cancel_job (answering 405) config "7" start).0 ≡ failed e)
    × (is_present (as_method_not_allowed e) ≡ true)
cancel_job-not_allowed_example =
    cancel_job-not_allowed (answering 405) config "7" start (refuses _ _)

get_template-twice_example :
    let s' = (get_template (answering 200) config "t" start).1 in
    get_template (answering 200) config "t" s' ≡ (done template, s')
unfolding get_template cloudkit_operator.Aap.get_template_by_name
    cloudkit_operator.Aap.get_template_from_endpoint cloudkit_operator.Aap.do_request
get_template-twice_example = get_template-twice (answering 200) config "t" template start refl
