-- ===== src/Services/Health.antt =====
-- The health check validators of the services.
pub mod Laws
use microkube.Base.{none, some, true, String, ◌||◌, if◌then◌else◌}
use microkube.Base.Bytes.{Bytes, codes, equal, trim}
use microkube.Base.Errors.{GoError, ErrorsPkg}

-- What ioutil.ReadAll makes of a response body.
pub data ReadResult : Type 0 where
  read : Bytes → ReadResult
  read_error : String → ReadResult

-- healthCheckFun of the API server, the controller manager, the scheduler and the kubelet.
-- `not_ok` is the error that is made of the body.
unfoldable pub plain_validator : (Bytes → String) → ReadResult → GoError
plain_validator not_ok (read_error e) = some e
plain_validator not_ok (read str) =
    if equal (trim (codes " \r\n") str) (codes "ok") then none else some (not_ok str)

-- What encoding/json makes of a response body, at the fields that the code declares.
pub data Decoded (Status : Type 0) : Type 0 where
  decoded : Status → Decoded Status
  decode_error : String → Decoded Status

pub record EtcdStatus : Type 0 where
  pub health : Bytes

pub record KubeProxyStatus : Type 0 where
  pub last_updated : Bytes
  pub current_time : Bytes

module _ (pkg : ErrorsPkg) where
  -- healthCheckFun of pkg/handlers/etcd/EtcdHandler.go. Behind the first `if` its `err` is nil.
  unfoldable pub etcd_validator : Decoded EtcdStatus → GoError
  etcd_validator (decode_error e) = pkg.wrap (some e) "JSON decode of response failed"
  etcd_validator (decoded response) =
      if equal response.health (codes "true") then none else pkg.wrap none "etcd is unhealthy!"

  -- healthCheckFun of pkg/handlers/kube/KubeProxyHandler.go, with the same `err`.
  unfoldable pub kube_proxy_validator : Decoded KubeProxyStatus → GoError
  kube_proxy_validator (decode_error e) = pkg.wrap (some e) "JSON decode of response failed"
  kube_proxy_validator (decoded response) =
      if equal response.last_updated (codes "") || equal response.current_time (codes "")
      then pkg.wrap none "kube-proxy is unhealthy!"
      else none
