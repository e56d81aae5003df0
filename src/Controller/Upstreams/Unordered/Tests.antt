-- ===== src/Controller/Upstreams/Unordered/Tests.antt =====
-- Two ingresses that the lister gives in either order.
use mathlib.Core.List.{Permᴰ}
use nghttpx_ingress_lb.Common.{List, [], ◌∷◌, refl}
use nghttpx_ingress_lb.Api.{Ingress}
use nghttpx_ingress_lb.Controller.Fixtures.{site_env, site_lbc, site_ingress, foreign_ingress}
use nghttpx_ingress_lb.Controller.Upstreams.{get_upstream_servers}
use nghttpx_ingress_lb.Controller.Upstreams.Unordered.{SameResult, get_upstream_servers-perm}

-- a second ingress for the same service, of another name
abbrev second_ingress : Ingress
second_ingress = record site_ingress { name = "second" }

abbrev one_order : List Ingress
one_order = site_ingress ∷ second_ingress ∷ foreign_ingress ∷ []

abbrev other_order : List Ingress
other_order = second_ingress ∷ site_ingress ∷ foreign_ingress ∷ []

get_upstream_servers-perm_example :
    SameResult
      (get_upstream_servers site_env site_lbc one_order)
      (get_upstream_servers site_env site_lbc other_order)
get_upstream_servers-perm_example =
    get_upstream_servers-perm site_env site_lbc one_order other_order (Permᴰ.swap refl refl)
