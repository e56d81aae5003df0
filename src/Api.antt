-- ===== src/Api.antt =====
-- The Kubernetes objects that the controller reads, with the fields that it reads. Their types are
-- those of the client library (vendor/k8s.io/kubernetes/pkg/api and pkg/apis/extensions).
use nghttpx_ingress_lb.Common.{ℕ, String, Option, List}
use nghttpx_ingress_lb.Common.Int.{ℤ}

abbrev pub Bytes : Type 0
Bytes = List ℕ

-- A Go `map[string]string`
abbrev pub StringMap : Type 0
StringMap = List (String × String)

pub data IntOrString : Type 0 where
  int : ℤ → IntOrString
  str : String → IntOrString

pub record ServicePort : Type 0 where
  pub name : String
  pub port : ℤ
  pub target_port : IntOrString

pub record Service : Type 0 where
  pub namespace : String
  pub name : String
  pub selector : StringMap
  pub ports : List ServicePort

pub record EndpointPort : Type 0 where
  pub port : ℤ
  pub protocol : String

pub record EndpointSubset : Type 0 where
  pub addresses : List String
  pub ports : List EndpointPort

pub record Endpoints : Type 0 where
  pub namespace : String
  pub name : String
  pub subsets : List EndpointSubset

pub record Secret : Type 0 where
  pub namespace : String
  pub name : String
  pub contents : List (String × Bytes)

pub record ConfigMap : Type 0 where
  pub namespace : String
  pub name : String
  pub contents : StringMap

pub record Pod : Type 0 where
  pub namespace : String
  pub name : String
  pub labels : StringMap
  pub node_name : String

pub record NodeAddress : Type 0 where
  pub kind : String
  pub address : String

pub record Node : Type 0 where
  pub name : String
  pub addresses : List NodeAddress

pub record IngressBackend : Type 0 where
  pub service_name : String
  pub service_port : IntOrString

pub record HttpIngressPath : Type 0 where
  pub path : String
  pub backend : IngressBackend

-- `http` is `none` where the rule's `HTTP` is nil.
pub record IngressRule : Type 0 where
  pub host : String
  pub http : Option (List HttpIngressPath)

pub record LoadBalancerIngress : Type 0 where
  pub ip : String
  pub hostname : String

-- `tls` lists the secret names of `Spec.TLS`.
pub record Ingress : Type 0 where
  pub namespace : String
  pub name : String
  pub annotations : StringMap
  pub tls : List String
  pub rules : List IngressRule
  pub load_balancer : List LoadBalancerIngress
