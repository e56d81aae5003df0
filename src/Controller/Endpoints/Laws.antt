-- ===== src/Controller/Endpoints/Laws.antt =====
-- Which servers `getEndpoints` returns, and from which target port.
use mathlib.Core.List.{append_assoc, append-nil, Memᴰ}
use mathlib.Core.List.Memᴰ
use mathlib.Core.Path.{subst}
use nghttpx_ingress_lb.Common.{
  inl, inr, String, ◌≡◌, ◌≢◌, ◌↔◌, refl, sym, ◌∙◌, Option, none, some, List, [], ◌∷◌, ◌++◌, map,
  got,
}
use nghttpx_ingress_lb.Common.Int.{ℤ, pos, itoa}
use nghttpx_ingress_lb.Api.{Service, ServicePort, Endpoints, EndpointSubset, EndpointPort}
use nghttpx_ingress_lb.Nghttpx.Types.{PortBackendConfig, UpstreamServer}
use nghttpx_ingress_lb.Controller.Env.{Caches, Libraries}
use nghttpx_ingress_lb.Controller.Endpoints.{
  server_at, address_loop, add_addresses, port_loop, subset_loop, get_endpoints, matched_port,
}
use nghttpx_ingress_lb.Controller.Endpoints.Ports.{Targets, matched_port-eq-some_iff}

address_loop-append :
    (config : PortBackendConfig) (port : ℤ) (ips : List String) (servers : List UpstreamServer)
    → address_loop config port ips servers ≡ servers ++ map (server_at config port) ips
unfolding address_loop
address_loop-append config port [] servers = sym (append-nil servers)
address_loop-append config port (ip ∷ ips) servers =
    address_loop-append config port ips (servers ++ server_at config port ip ∷ [])
    ∙ append_assoc servers (server_at config port ip ∷ []) _

Memᴰ-map :
    {A B : Type 0} (f : A → B) (l : List A) (b : B)
    → Memᴰ b (map f l)
    → (a : A) × Memᴰ a l × (b ≡ f a)
Memᴰ-map f [] b m = elim m [ ]
Memᴰ-map f (x ∷ xs) b (Memᴰ.head e) = (x, Memᴰ.head refl, e)
Memᴰ-map f (x ∷ xs) b (Memᴰ.tail m) = let (a, m', e) = Memᴰ-map f xs b m in (a, Memᴰ.tail m', e)

module _ (lib : Libraries) (cache : Caches) where
  module _ (svc : Service) (service_port : ServicePort) (proto : String)
      (config : PortBackendConfig) where
    -- The servers in their order: per subset, per port that matches, per address.
    abbrev pub port_servers : List String → Option ℤ → List UpstreamServer
    port_servers ips none = []
    port_servers ips (some port) = map (server_at config port) ips

    abbrev pub ports_servers : List String → List EndpointPort → List UpstreamServer
    ports_servers ips [] = []
    ports_servers ips (p ∷ ps) =
        port_servers ips (matched_port lib cache svc service_port proto p) ++ ports_servers ips ps

    abbrev pub subset_servers : List EndpointSubset → List UpstreamServer
    subset_servers [] = []
    subset_servers (ss ∷ rest) = ports_servers ss.addresses ss.ports ++ subset_servers rest

    add_addresses-append :
        (ips : List String) (port : Option ℤ) (servers : List UpstreamServer)
        → add_addresses lib cache svc service_port proto config ips port servers
          ≡ servers ++ port_servers ips port
    unfolding add_addresses
    add_addresses-append ips none servers = sym (append-nil servers)
    add_addresses-append ips (some port) servers = address_loop-append config port ips servers

    port_loop-append :
        (ips : List String) (ps : List EndpointPort) (servers : List UpstreamServer)
        → port_loop lib cache svc service_port proto config ips ps servers
          ≡ servers ++ ports_servers ips ps
    unfolding port_loop
    port_loop-append ips [] servers = sym (append-nil servers)
    port_loop-append ips (p ∷ ps) servers =
        let port = matched_port lib cache svc service_port proto p in
        rw (add_addresses-append ips port servers) (
          port_loop-append ips ps (servers ++ port_servers ips port)
          ∙ append_assoc servers (port_servers ips port) _)

    subset_loop-append :
        (subsets : List EndpointSubset) (servers : List UpstreamServer)
        → subset_loop lib cache svc service_port proto config subsets servers
          ≡ servers ++ subset_servers subsets
    unfolding subset_loop
    subset_loop-append [] servers = sym (append-nil servers)
    subset_loop-append (ss ∷ rest) servers = rw (port_loop-append ss.addresses ss.ports servers) (
        subset_loop-append rest (servers ++ ports_servers ss.addresses ss.ports)
        ∙ append_assoc servers (ports_servers ss.addresses ss.ports) _)

    get_endpoints-eq :
        (ep : Endpoints)
        → cache.service_endpoints svc ≡ got ep
        → get_endpoints lib cache svc service_port proto config ≡ subset_servers ep.subsets
    unfolding get_endpoints
    get_endpoints-eq ep e = rw (get_endpoints, e) (subset_loop-append ep.subsets [])

    -- `s` is the server of an address of a subset, at the number of one of the subset's ports: the port
    -- has the protocol, its number is not 0, and it is the one that the target port of the service's port
    -- stands for.
    pub data IsServer (subsets : List EndpointSubset) (s : UpstreamServer) : Type 0 where
      server :
          (ss : EndpointSubset) (p : EndpointPort) (port : ℤ) (ip : String)
          → Memᴰ ss subsets
          → Memᴰ p ss.ports
          → (p.protocol ≡ proto)
            × (p.port ≡ port)
            × (port ≢ pos 0)
            × Targets lib cache svc service_port service_port.target_port port
          → Memᴰ ip ss.addresses
          → s ≡ record {
            address = ip;
            port = itoa port;
            protocol = config.proto;
            tls = config.tls;
            sni = config.sni;
            dns = config.dns;
            affinity = config.affinity;
          }
          → IsServer subsets s

    later :
        (ss : EndpointSubset) (rest : List EndpointSubset) (s : UpstreamServer)
        → IsServer rest s
        → IsServer (ss ∷ rest) s
    later ss rest s (server ss' p port ip m mp e mi k) =
        server ss' p port ip (Memᴰ.tail m) mp e mi k

    abbrev AtPort : List String → List EndpointPort → UpstreamServer → Type 0
    AtPort ips ps s =
        (p : EndpointPort) × (port : ℤ) × (ip : String) × Memᴰ p ps
        × (matched_port lib cache svc service_port proto p ≡ some port)
        × Memᴰ ip ips
        × (s ≡ server_at config port ip)

    port_servers-Memᴰ :
        (ips : List String) (o : Option ℤ) (s : UpstreamServer)
        → Memᴰ s (port_servers ips o)
        → (port : ℤ) × (ip : String) × (o ≡ some port)
          × Memᴰ ip ips
          × (s ≡ server_at config port ip)
    port_servers-Memᴰ ips none s m = elim m [ ]
    port_servers-Memᴰ ips (some port) s m =
        let (ip, mi, k) = Memᴰ-map (server_at config port) ips s m in (port, ip, refl, mi, k)

    ports_servers-Memᴰ :
        (ips : List String) (ps : List EndpointPort) (s : UpstreamServer)
        → Memᴰ s (ports_servers ips ps)
        → AtPort ips ps s
    ports_servers-Memᴰ ips [] s m = elim m [ ]
    ports_servers-Memᴰ ips (p ∷ ps) s m = elim (Memᴰ.append_cases (port_servers ips _) m) [
      | inl m' ↦
          let (port, ip, e, mi, k) = port_servers-Memᴰ ips _ s m' in
          (p, port, ip, Memᴰ.head refl, e, mi, k)
      | inr m' ↦
          let (p', port, ip, mp, e, mi, k) = ports_servers-Memᴰ ips ps s m' in
          (p', port, ip, Memᴰ.tail mp, e, mi, k)
    ]

    Memᴰ-ports_servers :
        (ips : List String) (ps : List EndpointPort) (p : EndpointPort) (port : ℤ) (ip : String)
        → Memᴰ p ps
        → matched_port lib cache svc service_port proto p ≡ some port
        → Memᴰ ip ips
        → Memᴰ (server_at config port ip) (ports_servers ips ps)
    Memᴰ-ports_servers ips [] p port ip mp e mi = elim mp [ ]
    Memᴰ-ports_servers ips (q ∷ ps) p port ip (Memᴰ.head k) e mi =
        let found : matched_port lib cache svc service_port proto q ≡ some port = rw (← k) e in
        Memᴰ.append_left _ (
          subst (λ o. Memᴰ (server_at config port ip) (port_servers ips o)) (sym found)
            (Memᴰ.map (server_at config port) mi))
    Memᴰ-ports_servers ips (q ∷ ps) p port ip (Memᴰ.tail mp) e mi =
        Memᴰ.append_right _ (Memᴰ-ports_servers ips ps p port ip mp e mi)

    subset_servers-IsServer :
        (subsets : List EndpointSubset) (s : UpstreamServer)
        → Memᴰ s (subset_servers subsets)
        → IsServer subsets s
    subset_servers-IsServer [] s m = elim m [ ]
    subset_servers-IsServer (ss ∷ rest) s m =
        elim (Memᴰ.append_cases (ports_servers ss.addresses ss.ports) m) [
          | inl m' ↦
              let (p, port, ip, mp, e, mi, k) = ports_servers-Memᴰ ss.addresses ss.ports s m' in
              server ss p port ip (Memᴰ.head refl) mp
                ((matched_port-eq-some_iff lib cache svc service_port proto p port).0 e) mi k
          | inr m' ↦ later ss rest s (subset_servers-IsServer rest s m')
        ]

    IsServer-subset_servers :
        (subsets : List EndpointSubset) (s : UpstreamServer)
        → IsServer subsets s
        → Memᴰ s (subset_servers subsets)
    IsServer-subset_servers [] s (server ss p port ip m mp e mi k) = elim m [ ]
    IsServer-subset_servers (t ∷ rest) s (server ss p port ip (Memᴰ.head h) mp e mi k) =
        let m' : Memᴰ (server_at config port ip) (ports_servers t.addresses t.ports) = rw (← h) (
          Memᴰ-ports_servers ss.addresses ss.ports p port ip mp
            ((matched_port-eq-some_iff lib cache svc service_port proto p port).1 e) mi) in
        Memᴰ.append_left _ (Memᴰ.cast k m')
    IsServer-subset_servers (t ∷ rest) s (server ss p port ip (Memᴰ.tail m) mp e mi k) =
        Memᴰ.append_right _ (IsServer-subset_servers rest s (server ss p port ip m mp e mi k))

    -- Where the lister gives the service's endpoints, `getEndpoints` returns a server exactly if it is that
    -- of an address of a subset and of a port of the same subset: its address is that address, its port
    -- that port's number, and the rest of it the backend's configuration; and the port has the protocol
    -- asked for, and a number that is not 0 and is the one that the service's target port stands for. It
    -- returns no other server, and leaves none out.
    pub get_endpoints-IsServer_iff :
        (ep : Endpoints) (s : UpstreamServer)
        → cache.service_endpoints svc ≡ got ep
        → Memᴰ s (get_endpoints lib cache svc service_port proto config) ↔ IsServer ep.subsets s
    get_endpoints-IsServer_iff ep s e =
        rw (get_endpoints-eq ep e)
          (subset_servers-IsServer ep.subsets s, IsServer-subset_servers ep.subsets s)
