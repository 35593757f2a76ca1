-- ===== src/Manifests.antt =====
-- internal/manifests: the generator that turns a YAML file into a Go type, and the base type of
-- what it generates. The codecs of Kubernetes are parameters where they are used.
pub mod Documents
pub mod Codegen
pub mod Generated
pub mod Applied
mod Examples
use microkube.Base.{String, Bool, List}

-- appsv1.Deployment and extensionsv1beta1.Deployment: of each container of the pod template,
-- whether its LivenessProbe is there.
pub record Deployment : Type 0 where
  pub namespace : String
  pub name : String
  pub probes : List Bool

-- runtime.Object, by the types that the code tests for.
pub data Object : Type 0 where
  apps_deployment extensions_deployment : Deployment → Object
  other_object : String → Object
