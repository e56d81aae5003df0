-- ===== src/Controller/Annotation.antt =====
-- pkg/controller/annotation.go, and `validateIngressClass` of controller.go.
pub mod Laws
use nghttpx_ingress_lb.Common.{String, Bool, true, false, [], ◌||◌, if◌then◌else◌}
use nghttpx_ingress_lb.Common.Text.{◌=s◌}
use nghttpx_ingress_lb.Api.{StringMap, Ingress}
use nghttpx_ingress_lb.Controller.Env.{LoadBalancerController, Libraries, BackendConfigs, lookup_or}

abbrev pub backend_config_key : String
backend_config_key = "ingress.zlab.co.jp/backend-config"

abbrev pub ingress_class_key : String
ingress_class_key = "kubernetes.io/ingress.class"

-- An error of `json.Unmarshal` is only logged; what it has filled in is returned.
unfoldable pub get_backend_config : Libraries → StringMap → BackendConfigs
get_backend_config lib ia =
    let text = lookup_or "" backend_config_key ia in
    if text =s "" then [] else (lib.unmarshal_backend_config text).0

unfoldable pub get_ingress_class : StringMap → String
get_ingress_class ia = lookup_or "" ingress_class_key ia

unfoldable pub validate_ingress_class : LoadBalancerController → Ingress → Bool
unfolding get_ingress_class
validate_ingress_class lbc ing =
    let class = get_ingress_class ing.annotations in
    if class =s "" || class =s lbc.ingress_class then true else false
