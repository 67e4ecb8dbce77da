-- ===== src/Aap/Cache.antt =====
-- The template cache of the AAP client (internal/aap/client.go).
use cloudkit_operator.Prelude.{
  String, ◌≡◌, Option, none, some, arith, done, failed, GoError, eq_iff, ◌==◌, as_not_found,
  is_present, if◌then◌else◌,
}
use cloudkit_operator.Aap.{
  Http, ClientConfig, ClientState, Template, Method, ExtraVars, get_template, do_request,
  do_template_request,
}

module _ {T : Type 0} (http : Http T) (c : ClientConfig) where
  -- A cached template is returned with nothing asked of the server and nothing changed.
  pub get_template-cached :
      (name : String) (template : Template) (s : ClientState T)
      → s.template_cache name ≡ some template
      → get_template http c name s ≡ (done template, s)
  unfolding get_template
  get_template-cached name template s h = rw (get_template, h)

  get_template-stores :
      (name : String) (template : Template) (s : ClientState T)
      → (get_template http c name s).0 ≡ done template
      → (get_template http c name s).1.template_cache name ≡ some template
  unfolding get_template
  get_template-stores name template s h = ground (arith, eq_iff name name)

  -- After a lookup that succeeds, the next lookup of the same name returns the same template,
  -- asks nothing of the server and changes nothing.
  pub get_template-twice :
      (name : String) (template : Template) (s : ClientState T)
      → (get_template http c name s).0 ≡ done template
      → let s' = (get_template http c name s).1 in get_template http c name s' ≡ (done template, s')
  get_template-twice name template s h =
      get_template-cached name template (get_template http c name s).1
        (get_template-stores name template s h)

  do_request-template_cache :
      (method : Method) (url : String) (payload : Option ExtraVars) (s : ClientState T)
      → (do_request http c method url payload s).1.template_cache ≡ s.template_cache
  unfolding do_request
  do_request-template_cache method url none s = ground arith
  do_request-template_cache method url (some payload) s = ground arith

  -- A template request that fails removes the template from the cache if the failure is a
  -- NotFoundError; any other failure, and every other entry, leaves it as it is.
  pub do_template_request-forgets :
      (method : Method) (url : String) (payload : Option ExtraVars) (name : String)
      (s : ClientState T) (e : GoError)
      → (do_request http c method url payload s).0 ≡ failed e
      → (key : String)
      → (do_template_request http c method url payload name s).1.template_cache key ≡ (
          if is_present (as_not_found e)
          then (if key == name then none else s.template_cache key)
          else s.template_cache key)
  unfolding do_template_request as_not_found is_present
  do_template_request-forgets method url payload name s e h key =
      ground (arith, do_request-template_cache method url payload s)
