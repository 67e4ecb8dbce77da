-- ===== src/Aap.antt =====
-- internal/aap/client.go: the client of the AAP REST API. `T` is what the server keeps. The HTTP
-- exchange and the JSON codecs are the library's; the bodies are texts.
pub mod Errors
pub mod Cache
use cloudkit_operator.Prelude.{
  ℕ, String, Bool, true, not, ◌&&◌, Option, none, some, List, [], ◌∷◌, ltb, leb, ◌==◌,
  if◌then◌else◌, join_text, Result, ok, err, Outcome, done, failed, panicked, plain, not_found,
  method_not_allowed, as_not_found, is_present, GoError, Handler, pure, raise, panic, lift, wrap,
  ◌>>=◌, ◌>>◌,
}
use cloudkit_operator.Strconv.{ℤ, pos, negsuc, itoa}

pub data TemplateType : Type 0 where
  job_template workflow_job_template : TemplateType
  other : String → TemplateType

pub record Template : Type 0 where
  pub id : ℤ
  pub name : String
  pub type : TemplateType

pub record AapJob : Type 0 where
  pub id : ℤ
  pub status : String
  pub started : ℕ
  pub finished : ℕ
  pub extra_vars : String
  pub result_traceback : String

-- map[string]any, as far as the program builds one: an object with one key, or the map that
-- encoding/json made of a resource
pub data ExtraVars : Type 0 where
  decoded : String → ExtraVars
  nested : String → ExtraVars → ExtraVars

pub record LaunchRequest : Type 0 where
  pub template_name : String
  pub extra_vars : ExtraVars

pub data Method : Type 0 where
  get post : Method

method_text : Method → String
method_text get = "GET"
method_text post = "POST"

pub record Response : Type 0 where
  pub status_code : ℕ
  pub body : Result String

pub record TemplateList : Type 0 where
  pub count : ℤ
  pub results : List Template

-- net/http and encoding/json
pub record Http (T : Type 0) : Type 0 where
  pub marshal : ExtraVars → Result String
  pub new_request : Method → String → Result (Unit {0})
  pub send : Method → String → String → Option String → Handler T Response
  pub decode_launch : String → Result ℤ
  pub decode_job : String → Result AapJob
  pub decode_can_cancel : String → Result Bool
  pub decode_templates : String → Result TemplateList

pub record ClientConfig : Type 0 where
  pub base_url : String
  pub token : String

-- the sync.Map of templates, and the server behind the connection
pub record ClientState (T : Type 0) : Type 0 where
  pub template_cache : String → Option Template
  pub server : T

abbrev pub api_url : ClientConfig → String → String
api_url c path = join_text c.base_url (join_text "/v2/" path)

abbrev pub jobs_path : String → String
jobs_path job_id = join_text "jobs/" (join_text job_id "/")

abbrev pub cancel_path : String → String
cancel_path job_id = join_text "jobs/" (join_text job_id "/cancel/")

abbrev pub launch_path : String → String → String
launch_path endpoint name = join_text endpoint (join_text "/" (join_text name "/launch/"))

abbrev pub lookup_path : String → String → String
lookup_path endpoint name = join_text endpoint (join_text "/?name=" name)

abbrev pub is_success : ℕ → Bool
is_success code = leb 200 code && ltb code 300

is_code : ℕ → ℕ → Bool
is_code a b = leb a b && leb b a

-- the error of a status code outside 200 to 299
unfoldable pub status_error : Method → String → ℕ → String → GoError
unfolding is_code method_text
status_error method url code body =
    if is_code code 404
    then not_found url
    else if is_code code 405
    then method_not_allowed (join_text (method_text method) (join_text " " url))
    else plain (
        join_text "received non-success status code " (join_text (itoa code) (join_text ": " body)))

invalidate : (String → Option Template) → String → String → Option Template
invalidate cache name key = if key == name then none else cache key

stored : (String → Option Template) → String → Template → String → Option Template
stored cache name template key = if key == name then some template else cache key

-- what doTemplateRequest does with an error
forget_on : Bool → String → (String → Option Template) → (String → Option Template)
unfolding invalidate
forget_on true name cache = invalidate cache name
forget_on _ name cache = cache

is_not_found : GoError → Bool
unfolding as_not_found is_present
is_not_found e = is_present (as_not_found e)

module _ {T : Type 0} (http : Http T) (c : ClientConfig) where
  -- httpClient.Do changes nothing in the client
  send : Method → String → Option String → Handler (ClientState T) Response
  send method url body s = (
    (http.send method url c.token body s.server).0,
    record s { server = (http.send method url c.token body s.server).1 },
  )

  marshalled : Option ExtraVars → Handler (ClientState T) (Option String)
  unfolding pure lift
  marshalled none = pure none
  marshalled (some payload) = do
    json_data ← wrap "failed to marshal payload" (lift (http.marshal payload))
    pure (some json_data)

  unfoldable pub do_request : Method → String → Option ExtraVars → Handler (ClientState T) String
  unfolding send marshalled pure raise lift
  do_request method url payload = do
    body ← marshalled payload
    wrap "failed to create request" (lift (http.new_request method url))
    response ← wrap "failed to send request" (send method url body)
    resp_body ← wrap "failed to read response body" (lift response.body)
    if not (is_success response.status_code)
        then raise (status_error method url response.status_code resp_body)
        else pure resp_body

  forget_template : String → Outcome String → ClientState T → ClientState T
  unfolding forget_on is_not_found
  forget_template name (failed e) s = record s {
    template_cache = forget_on (is_not_found e) name s.template_cache;
  }
  forget_template name _ s = s

  unfoldable pub do_template_request :
      Method → String → Option ExtraVars → String → Handler (ClientState T) String
  unfolding forget_template
  do_template_request method url payload template_name s =
      let (outcome, s') = do_request method url payload s in
      (outcome, forget_template template_name outcome s')

  launch : String → String → LaunchRequest → Handler (ClientState T) ℤ
  unfolding lift
  launch endpoint failure req = do
    resp ← wrap failure (
        do_template_request post (api_url c (launch_path endpoint req.template_name))
          (some (nested "extra_vars" req.extra_vars)) req.template_name)
    wrap "failed to parse launch response" (lift (http.decode_launch resp))

  unfoldable pub launch_job_template : LaunchRequest → Handler (ClientState T) ℤ
  unfolding launch
  launch_job_template req = launch "job_templates" "failed to launch job template" req

  unfoldable pub launch_workflow_template : LaunchRequest → Handler (ClientState T) ℤ
  unfolding launch
  launch_workflow_template req =
      launch "workflow_job_templates" "failed to launch workflow template" req

  unfoldable pub get_job : String → Handler (ClientState T) AapJob
  unfolding lift
  get_job job_id = do
    resp ← wrap "failed to get job" (do_request get (api_url c (jobs_path job_id)) none)
    wrap "failed to parse job response" (lift (http.decode_job resp))

  unfoldable pub can_cancel_job : String → Handler (ClientState T) Bool
  unfolding lift
  can_cancel_job job_id = do
    resp ←
        wrap "failed to check if job can be canceled"
          (do_request get (api_url c (cancel_path job_id)) none)
    wrap "failed to parse can_cancel response" (lift (http.decode_can_cancel resp))

  unfoldable pub cancel_job : String → Handler (ClientState T) (Unit {0})
  unfolding pure
  cancel_job job_id = do
    wrap "failed to cancel job" (do_request post (api_url c (cancel_path job_id)) none)
    pure tt

  -- result.Results[0] panics on an empty list
  first_result : TemplateType → List Template → Handler (ClientState T) Template
  unfolding pure panic
  first_result type [] = panic
  first_result type (template ∷ rest) = pure (record template { type = type })

  is_zero : ℤ → Bool
  unfolding is_code
  is_zero (pos n) = is_code n 0
  is_zero (negsuc n) = is_code 1 0

  unfoldable pub get_template_from_endpoint :
      String → String → TemplateType → Handler (ClientState T) Template
  unfolding first_result is_zero raise lift
  get_template_from_endpoint endpoint name type = do
    resp ← do_request get (api_url c (lookup_path endpoint name)) none
    result ← wrap "failed to parse template lookup response" (lift (http.decode_templates resp))
    if is_zero result.count
        then raise (plain (join_text "template " (join_text name " not found")))
        else first_result type result.results

  -- if lookupErr == nil { return template, nil }, or go on with the next lookup
  or_else : Outcome Template → Handler (ClientState T) Template → Handler (ClientState T) Template
  or_else (failed e) next s = next s
  or_else outcome next s = (outcome, s)

  unfoldable pub get_template_by_name : String → Handler (ClientState T) Template
  unfolding or_else raise
  get_template_by_name name s =
      let (as_job, s_job) = get_template_from_endpoint "job_templates" name job_template s in
      or_else as_job
        (λ s'.
          let (as_workflow, s_workflow) =
            get_template_from_endpoint "workflow_job_templates" name workflow_job_template s' in
          or_else as_workflow
            (raise (
              plain (
                join_text "template "
                  (join_text name " not found as job_templates or workflow_job_templates"))))
            s_workflow)
        s_job

  store_template : String → Template → Handler (ClientState T) Template
  unfolding stored
  store_template name template s =
      (done template, record s { template_cache = stored s.template_cache name template })

  cached_or : String → Option Template → Handler (ClientState T) Template
  unfolding store_template
  cached_or name (some template) s = (done template, s)
  cached_or name none s = (do template ← get_template_by_name name; store_template name template) s

  unfoldable pub get_template : String → Handler (ClientState T) Template
  unfolding cached_or
  get_template name s = cached_or name (s.template_cache name) s

  unfoldable pub clear_template_cache : ClientState T → ClientState T
  clear_template_cache s = record s { template_cache = λ key. none }
