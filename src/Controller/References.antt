-- ===== src/Controller/References.antt =====
-- `endpointsReferenced`, `secretReferenced` and `podReferenced` of controller.go: which objects the
-- notification handlers queue a synchronisation for.
pub mod Loops
pub mod Laws
pub mod Failing
use nghttpx_ingress_lb.Common.{
  String, Bool, true, false, Option, none, some, List, [], ◌∷◌, ◌++◌, ◌||◌, ◌&&◌, not, any,
  if◌then◌else◌, Try, failed, got,
}
use nghttpx_ingress_lb.Common.Text.{◌=s◌}
use nghttpx_ingress_lb.Api.{
  StringMap, Service, Endpoints, Pod, Ingress, HttpIngressPath, IngressRule,
}
use nghttpx_ingress_lb.Controller.Env.{LoadBalancerController, Libraries, Caches}
use nghttpx_ingress_lb.Controller.Annotation.{validate_ingress_class}
use nghttpx_ingress_lb.Controller.Credentials.{slashed}

-- The loop over the paths of a rule, which `continue`s where the rule's `HTTP` is nil.
pub http_refers : (HttpIngressPath → Bool) → Option (List HttpIngressPath) → Bool
http_refers p none = false
http_refers p (some paths) = any p paths

-- The loop over the rules of an ingress.
pub rules_refer : (HttpIngressPath → Bool) → List IngressRule → Bool
unfolding http_refers
rules_refer p [] = false
rules_refer p (r ∷ rs) = if http_refers p r.http then true else rules_refer p rs

module _ (lbc : LoadBalancerController) where
  -- The loop over the ingresses, which `continue`s on those of another class.
  pub ingresses_refer : (Ingress → Bool) → List Ingress → Bool
  ingresses_refer p [] = false
  ingresses_refer p (ing ∷ rest) =
      if not (validate_ingress_class lbc ing)
      then ingresses_refer p rest
      else if p ing
      then true
      else ingresses_refer p rest

  listed_refer : (Ingress → Bool) → Try (List Ingress) → Bool
  unfolding ingresses_refer
  listed_refer p (failed e) = false
  listed_refer p (got ings) = ingresses_refer p ings

  module _ (cache : Caches) where
    unfoldable pub endpoints_referenced : Endpoints → Bool
    unfolding listed_refer rules_refer
    endpoints_referenced ep =
        if slashed ep.namespace ep.name =s lbc.default_svc
        then true
        else listed_refer
            (λ ing. rules_refer (λ path. ep.name =s path.backend.service_name) ing.rules)
            (cache.ingresses_in ep.namespace)

    unfoldable pub secret_referenced : String → String → Bool
    unfolding listed_refer
    secret_referenced namespace name =
        if lbc.default_tls_secret =s slashed namespace name
        then true
        else listed_refer (λ ing. any (λ secret_name. secret_name =s name) ing.tls)
            (cache.ingresses_in namespace)

    module _ (lib : Libraries) where
      -- whether the service that the lister gives, if any, selects the pod
      pub selected : Pod → Try (Option Service) → Bool
      selected pod (failed e) = false
      selected pod (got none) = false
      selected pod (got (some svc)) = lib.selector_matches svc.selector pod.labels

      unfoldable pub pod_referenced : Pod → Bool
      unfolding listed_refer rules_refer selected
      pod_referenced pod =
          if selected pod (cache.service lbc.default_svc)
          then true
          else listed_refer
              (λ ing.
                rules_refer
                  (λ path.
                    selected pod (cache.service (slashed pod.namespace path.backend.service_name)))
                  ing.rules)
              (cache.ingresses_in pod.namespace)
