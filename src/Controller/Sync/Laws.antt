-- ===== src/Controller/Sync/Laws.antt =====
-- What a synchronisation does on each of its ways.
use nghttpx_ingress_lb.Common.{◌≡◌, ◌∙◌, ◌↔◌, refl, sym, ap, String, Bool, List, ok, got}
use nghttpx_ingress_lb.Api.{ConfigMap, Ingress}
use nghttpx_ingress_lb.Nghttpx.Types.{IngressConfig}
use nghttpx_ingress_lb.Nghttpx.Io.{Io}
use nghttpx_ingress_lb.Controller.Act.{raised, call, and_then-eq-ok, raised-eq-ok, called-eq-ok}
use nghttpx_ingress_lb.Controller.Env.{LoadBalancerController}
use nghttpx_ingress_lb.Controller.Upstreams.{Environment, get_upstream_servers}
use nghttpx_ingress_lb.Controller.Queue.{WorkQueue}
use nghttpx_ingress_lb.Controller.Sync.{
  read_config, get_config_map, synchronise, retry_or_forget, sync,
}

module _ (env : Environment) (lbc : LoadBalancerController) {W Q : Type 0}
    (check_and_reload : IngressConfig → Io W Bool) (queue : WorkQueue Q) where
  -- `nghttpx` is brought from `w` to `w'`, with the configuration that is made from the caches.
  abbrev pub IsApplied : W → W → Type 0
  IsApplied w w' =
      (ings : List Ingress) × (config : IngressConfig) × (cm : ConfigMap) × (b : Bool)
      × (env.cache.ingresses ≡ got ings)
      × (get_upstream_servers env lbc ings ≡ ok config)
      × (get_config_map env.cache lbc.ngx_config_map ≡ got cm)
      × (check_and_reload (read_config config cm) w ≡ (got b, w'))

  synchronise-IsApplied :
      (w w' : W) → synchronise env lbc check_and_reload queue w ≡ (ok tt, w') → IsApplied w w'
  unfolding synchronise
  synchronise-IsApplied w w' h =
      let (ings, w1, e1, h1) = and_then-eq-ok (raised env.cache.ingresses, w) _ h in
      let (config, w2, e2, h2) = and_then-eq-ok (get_upstream_servers env lbc ings, w1) _ h1 in
      let (cm, w3, e3, h3) =
        and_then-eq-ok (raised (get_config_map env.cache lbc.ngx_config_map), w2) _ h2 in
      let (b, w4, e4, h4) =
        and_then-eq-ok (call (check_and_reload (read_config config cm)) w3) _ h3 in
      let back : w3 ≡ w =
        sym (ap (λ r. r.1) e3) ∙ (sym (ap (λ r. r.1) e2) ∙ sym (ap (λ r. r.1) e1)) in
      (
        ings,
        config,
        cm,
        b,
        raised-eq-ok env.cache.ingresses (ap (λ r. r.0) e1),
        ap (λ r. r.0) e2,
        raised-eq-ok (get_config_map env.cache lbc.ngx_config_map) (ap (λ r. r.0) e3),
        ap (check_and_reload (read_config config cm)) (sym back)
            ∙ (called-eq-ok (check_and_reload (read_config config cm) w3) e4
                ∙ ap (λ r. (got b, r.1)) h4),
      )

  IsApplied-synchronise :
      (w w' : W) → IsApplied w w' → synchronise env lbc check_and_reload queue w ≡ (ok tt, w')
  unfolding synchronise
  IsApplied-synchronise w w' (ings, config, cm, b, e, k, g, c) = simp (e, k, g, c)

  -- `sync` returns no error exactly if the ingresses can be listed, getUpstreamServers makes a
  -- configuration of them, the config map is missing or can be got, and CheckAndReload returns no error
  -- for that configuration with the config map's text; the queue is then as it was.
  pub sync-eq-ok_iff :
      (key : String) (w w' : W) (q q' : Q)
      → (sync env lbc check_and_reload queue key (w, q) ≡ (ok tt, (w', q')))
        ↔ (IsApplied w w' × (q ≡ q'))
  unfolding sync retry_or_forget
  sync-eq-ok_iff key w w' q q' = (
    λ h. (synchronise-IsApplied w w' (ap (λ r. (r.0, r.1.0)) h), ap (λ r. r.1.1) h),
    λ (a, same). let e = IsApplied-synchronise w w' a in rw (e, same) refl,
  )
