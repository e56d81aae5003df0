-- ===== src/Main/Laws.antt =====
-- The checks of `main` and the namespace of the config maps.
use nghttpx_ingress_lb.Common.{
  String, ◌≡◌, ◌≢◌, ◌⊎◌, inl, inr, refl, sym, ap, Bool, true, false, Try, failed, got, Bool-cases,
  if◌then◌else◌,
}
use nghttpx_ingress_lb.Common.Fallible.{◌>>=◌, wrap_err, bind-eq-got, wrap_err-eq-got}
use nghttpx_ingress_lb.Common.Text.{◌=s◌, eq_iff, ne_of_test}
use nghttpx_ingress_lb.Controller.Credentials.{slashed}
use nghttpx_ingress_lb.Controller.Env.{PodInfo, LoadBalancerController}
use nghttpx_ingress_lb.Controller.Names.{parse_ns_name, is_valid_service}
use nghttpx_ingress_lb.Controller.Names.Laws.{
  has_slash, IsName, parse_ns_name-eq-got_iff, is_valid_service-Exists,
}
use nghttpx_ingress_lb.Main.{
  Flags, Cluster, Config, Started, exits, fails, runs, checked_name, non_empty, rest_config,
  validated, started, main, new_load_balancer_controller, cm_namespace,
}

checked_name-IsName :
    (what s : String) {u : Unit {0}} → checked_name what s ≡ got u → (s ≡ "") ⊎ IsName s
checked_name-IsName what s h = elim (Bool-cases (s =s "")) [
  | inl e ↦ inl ((eq_iff s "").0 e)
  | inr e ↦
      let k = wrap_err-eq-got _ (parse_ns_name s >>= λ parts. got tt) (rw e at h) in
      let ((ns, name), p, _) = bind-eq-got _ (parse_ns_name s) k in
      let (e', k, l) = (parse_ns_name-eq-got_iff s ns name).0 p in inr (ns, name, e', k, l)
]

non_empty-ne : (m s : String) {u : Unit {0}} → non_empty m s ≡ got u → s ≢ ""
non_empty-ne m s h = elim (Bool-cases (s =s "")) [
  | inl e ↦ let k : failed m ≡ got _ = rw e at h in cc
  | inr e ↦ ne_of_test s "" e
]

module _ {R K S : Type 0} (cluster : Cluster R K S) (flags : Flags) where
  -- Some service of the cluster has the name that is given for the default backend.
  abbrev pub HasService : K → Type 0
  HasService clientset =
      (ns : String) × (name : String) × (svc : S) × (flags.default_svc ≡ slashed ns name)
      × (cluster.get_service clientset ns name ≡ got svc)

  pub record IsValid : Type 0 where
    pub clientset : K
    pub service : HasService clientset
    pub config_map : (flags.ngx_config_map ≡ "") ⊎ IsName flags.ngx_config_map
    pub secret : (flags.default_tls_secret ≡ "") ⊎ IsName flags.default_tls_secret
    pub pod_name : flags.pod_name ≢ ""
    pub pod_namespace : flags.pod_namespace ≢ ""

  validated-IsValid : {u : Unit {0}} → validated cluster flags ≡ got u → IsValid
  unfolding validated
  validated-IsValid h =
      let (_, e1, h1) = bind-eq-got _ (non_empty _ flags.default_svc) h in
      let (config, e2, h2) = bind-eq-got _ (rest_config cluster flags) h1 in
      let (clientset, e3, h3) = bind-eq-got _ (wrap_err _ (cluster.new_for_config config)) h2 in
      let (_, e4, h4) =
        bind-eq-got _
          (wrap_err _ (is_valid_service (cluster.get_service clientset) flags.default_svc)) h3 in
      let (_, e5, h5) = bind-eq-got _ (checked_name "configmap name" flags.ngx_config_map) h4 in
      let (_, e6, h6) = bind-eq-got _ (checked_name "Secret" flags.default_tls_secret) h5 in
      let (_, e7, h7) = bind-eq-got _ (non_empty _ flags.pod_name) h6 in
      let (ns, name, svc, d, g) =
        is_valid_service-Exists (cluster.get_service clientset) flags.default_svc (
          wrap_err-eq-got _ (is_valid_service (cluster.get_service clientset) flags.default_svc)
            e4) in
      record {
        clientset = clientset;
        service = (ns, name, svc, d, g);
        config_map = checked_name-IsName _ flags.ngx_config_map e5;
        secret = checked_name-IsName _ flags.default_tls_secret e6;
        pod_name = non_empty-ne _ flags.pod_name e7;
        pod_namespace = non_empty-ne _ flags.pod_namespace h7;
      }

  -- The fields of the controller, from the flags.
  abbrev pub given : LoadBalancerController
  given = record {
    pod_info = record { pod_name = flags.pod_name; pod_namespace = flags.pod_namespace };
    default_svc = flags.default_svc;
    ngx_config_map = flags.ngx_config_map;
    default_tls_secret = flags.default_tls_secret;
    watch_namespace = flags.watch_namespace;
    ingress_class = flags.ingress_class;
    allow_internal_ip = flags.allow_internal_ip;
  }

  -- If `main` runs the controller, then the default backend's name is that of a service of the cluster,
  -- the names of the config map and of the default secret are empty or a namespace, a slash and a name,
  -- the pod's name and namespace are not empty, and the controller has the flags and the pod.
  pub main-IsValid :
      (config : Config) (info : PodInfo)
      → main cluster flags ≡ runs config info
      → IsValid × (new_load_balancer_controller config info ≡ given)
  unfolding main started new_load_balancer_controller
  main-IsValid config info h = by_flag flags.build_cfg h
    where
      made : Started → LoadBalancerController → LoadBalancerController
      made (runs c i) d = new_load_balancer_controller c i
      made exits d = d
      made (fails m) d = d

      of :
          (t : Try (Unit {0}))
          → validated cluster flags ≡ t
          → started cluster flags t ≡ runs config info
          → IsValid × (new_load_balancer_controller config info ≡ given)
      of (failed m) k e = cc
      of (got u) k e =
          (validated-IsValid k, sym (ap (λ t. made t (new_load_balancer_controller config info)) e))

      by_flag :
          (b : Bool)
          → (if b then exits else started cluster flags (validated cluster flags))
            ≡ runs config info
          → IsValid × (new_load_balancer_controller config info ≡ given)
      by_flag true e = cc
      by_flag false e = of (validated cluster flags) refl e

  -- If `main` runs the controller with the name of a config map, then the config map is in the namespace
  -- that the controller watches for config maps; the error that `NewLoadBalancerController` drops there
  -- does not come up.
  pub main-cm_namespace :
      (config : Config) (info : PodInfo)
      → main cluster flags ≡ runs config info
      → flags.ngx_config_map ≢ ""
      → (name : String) × (flags.ngx_config_map
          ≡ slashed (cm_namespace (new_load_balancer_controller config info)) name)
        × (has_slash name ≡ false)
  unfolding cm_namespace
  main-cm_namespace config info h n =
      let (valid, e) = main-IsValid config info h in rw e (of valid.config_map)
    where
      of :
          (flags.ngx_config_map ≡ "") ⊎ IsName flags.ngx_config_map
          → (name : String) × (flags.ngx_config_map ≡ slashed (cm_namespace given) name)
            × (has_slash name ≡ false)
      of (inl z) = elim (n z) [ ]
      of (inr (ns, name, e, k, l)) = elim (Bool-cases (flags.ngx_config_map =s "")) [
        | inl z ↦ elim (n ((eq_iff flags.ngx_config_map "").0 z)) [ ]
        | inr z ↦
            (name, rw (z, (parse_ns_name-eq-got_iff flags.ngx_config_map ns name).1 (e, k, l)) e, l)
      ]
