-- ===== src/Nghttpx/Types/Laws.antt =====
-- What `FixupPortBackendConfig` guarantees.
use nghttpx_ingress_lb.Common.{◌≡◌, ◌⊎◌, ◌↔◌, arith}
use nghttpx_ingress_lb.Common.Text.{eq_iff}
use nghttpx_ingress_lb.Nghttpx.Types.{
  PortBackendConfig, fixup_port_backend_config, protocol_h1, protocol_h2, affinity_none,
  affinity_ip,
}

-- The protocols and affinity methods that nghttpx accepts.
pub record IsUsable (c : PortBackendConfig) : Type 0 where
  pub proto_known : (c.proto ≡ protocol_h2) ⊎ (c.proto ≡ protocol_h1)
  pub affinity_known : (c.affinity ≡ affinity_none) ⊎ (c.affinity ≡ affinity_ip)

-- Whatever the annotation says, the fixed configuration names a protocol and an affinity method that
-- nghttpx accepts; its TLS, SNI and DNS settings are those of the annotation, and it is left as it was
-- exactly if it was usable already.
pub fixup_port_backend_config_lem :
    (c : PortBackendConfig)
    → let d = fixup_port_backend_config c in
      IsUsable d × (d.tls ≡ c.tls) × (d.sni ≡ c.sni) × (d.dns ≡ c.dns) × ((d ≡ c) ↔ IsUsable c)
unfolding fixup_port_backend_config
fixup_port_backend_config_lem c = ground (
  arith,
  eq_iff c.proto protocol_h2,
  eq_iff c.proto protocol_h1,
  eq_iff c.affinity affinity_none,
  eq_iff c.affinity affinity_ip,
)
