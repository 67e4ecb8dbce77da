-- ===== src/Aap/Errors.antt =====
-- The typed errors of the AAP client (internal/aap/client.go).
use cloudkit_operator.Prelude.{
  ℕ, String, ◌≡◌, true, false, none, arith, ok, done, failed, wrapped, ◌↔◌, GoError, as_not_found,
  as_method_not_allowed, is_present,
}
use cloudkit_operator.Aap.{
  Http, ClientConfig, ClientState, Response, Method, get, post, api_url, cancel_path, jobs_path,
  is_success, status_error, do_request, cancel_job, get_job,
}

-- The status 404 makes the one error that errors.As finds a NotFoundError in, and 405 the one that
-- it finds a MethodNotAllowedError in.
pub status_error-typed :
    (method : Method) (url : String) (code : ℕ) (body : String)
    → ((is_present (as_not_found (status_error method url code body)) ≡ true) ↔ (code ≡ 404))
      × ((is_present (as_method_not_allowed (status_error method url code body)) ≡ true)
          ↔ (code ≡ 405))
unfolding status_error as_not_found as_method_not_allowed is_present
status_error-typed method url code body = (ground arith, ground arith)

module _ {T : Type 0} (http : Http T) (c : ClientConfig) where
  -- the server answers with a status code outside 200 to 299, and a body that can be read
  pub record Refuses (method : Method) (url : String) (code : ℕ) (s : ClientState T) : Type 0 where
    pub built : http.new_request method url ≡ ok tt
    pub response : Response
    pub body : String
    pub answered : (http.send method url c.token none s.server).0 ≡ done response
    pub has_code : response.status_code ≡ code
    pub has_body : response.body ≡ ok body
    pub no_success : is_success code ≡ false

  do_request-Refuses :
      (method : Method) (url : String) (code : ℕ) (s : ClientState T)
      → (r : Refuses method url code s)
      → (do_request http c method url none s).0 ≡ failed (status_error method url code r.body)
  unfolding do_request
  do_request-Refuses method url code s r = ground arith

  -- A cancellation that the server answers with 405 fails with an error in which errors.As finds a
  -- MethodNotAllowedError, under the wrapping of CancelJob.
  pub cancel_job-not_allowed :
      (job_id : String) (s : ClientState T)
      → Refuses post (api_url c (cancel_path job_id)) 405 s
      → (e : GoError) × ((cancel_job http c job_id s).0 ≡ failed e)
        × (is_present (as_method_not_allowed e) ≡ true)
  unfolding cancel_job as_method_not_allowed is_present
  cancel_job-not_allowed job_id s r = (
    wrapped "failed to cancel job" (status_error post (api_url c (cancel_path job_id)) 405 r.body),
    ground (arith, do_request-Refuses post (api_url c (cancel_path job_id)) 405 s r),
    ground (arith, status_error-typed post (api_url c (cancel_path job_id)) 405 r.body),
  )

  -- A job that the server does not know is reported with an error in which errors.As finds a
  -- NotFoundError, under the wrapping of GetJob.
  pub get_job-not_found :
      (job_id : String) (s : ClientState T)
      → Refuses get (api_url c (jobs_path job_id)) 404 s
      → (e : GoError) × ((get_job http c job_id s).0 ≡ failed e)
        × (is_present (as_not_found e) ≡ true)
  unfolding get_job as_not_found is_present
  get_job-not_found job_id s r = (
    wrapped "failed to get job" (status_error get (api_url c (jobs_path job_id)) 404 r.body),
    ground (arith, do_request-Refuses get (api_url c (jobs_path job_id)) 404 s r),
    ground (arith, status_error-typed get (api_url c (jobs_path job_id)) 404 r.body),
  )
