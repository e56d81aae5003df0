-- ===== src/Nghttpx/Types.antt =====
-- pkg/nghttpx/types.go, and the defaults of pkg/nghttpx/utils.go.
pub mod Laws
use nghttpx_ingress_lb.Common.{
  String, Bool, true, false, Option, none, List, [], ◌||◌, if◌then◌else◌,
}
use nghttpx_ingress_lb.Common.Int.{ℤ, itoa}
use nghttpx_ingress_lb.Common.Text.{◌=s◌}
use nghttpx_ingress_lb.Api.{Bytes}

abbrev pub affinity_none : String
affinity_none = "none"

abbrev pub affinity_ip : String
affinity_ip = "ip"

abbrev pub protocol_h2 : String
protocol_h2 = "h2"

abbrev pub protocol_h1 : String
protocol_h1 = "http/1.1"

pub record UpstreamServer : Type 0 where
  pub address : String
  pub port : String
  pub protocol : String
  pub tls : Bool
  pub sni : String
  pub dns : Bool
  pub affinity : String

pub record Upstream : Type 0 where
  pub name : String
  pub host : String
  pub path : String
  pub backends : List UpstreamServer
  pub redirect_if_not_tls : Bool

pub record ChecksumFile : Type 0 where
  pub path : String
  pub content : Bytes
  pub checksum : String

pub record TlsCred : Type 0 where
  pub key : ChecksumFile
  pub cert : ChecksumFile

-- `default_tls_cred` is `none` where the pointer is nil.
pub record IngressConfig : Type 0 where
  pub upstreams : List Upstream
  pub tls : Bool
  pub default_tls_cred : Option TlsCred
  pub sub_tls_cred : List TlsCred
  pub workers : String
  pub extra_config : String

-- `num_cpu` is `runtime.NumCPU()`.
unfoldable pub new_ingress_config : ℤ → IngressConfig
new_ingress_config num_cpu = record {
  upstreams = [];
  tls = false;
  default_tls_cred = none;
  sub_tls_cred = [];
  workers = itoa num_cpu;
  extra_config = "";
}

unfoldable pub new_default_server : UpstreamServer
new_default_server = record {
  address = "127.0.0.1";
  port = "8181";
  protocol = protocol_h1;
  tls = false;
  sni = "";
  dns = false;
  affinity = affinity_none;
}

pub record PortBackendConfig : Type 0 where
  pub proto : String
  pub tls : Bool
  pub sni : String
  pub dns : Bool
  pub affinity : String

fixup_proto : String → String
fixup_proto proto =
    if proto =s protocol_h2 || proto =s protocol_h1
    then proto
    else if proto =s ""
    then protocol_h1
    else protocol_h1

fixup_affinity : String → String
fixup_affinity affinity =
    if affinity =s affinity_none || affinity =s affinity_ip
    then affinity
    else if affinity =s ""
    then affinity_none
    else affinity_none

-- The service and the port are only logged.
unfoldable pub fixup_port_backend_config : PortBackendConfig → PortBackendConfig
unfolding fixup_proto fixup_affinity
fixup_port_backend_config config =
    let fixed = record config { proto = fixup_proto config.proto } in
    record fixed { affinity = fixup_affinity fixed.affinity }

unfoldable pub default_port_backend_config : PortBackendConfig
default_port_backend_config = record {
  proto = protocol_h1;
  tls = false;
  sni = "";
  dns = false;
  affinity = affinity_none;
}
