-- ===== src/Manifests/Examples.antt =====
-- A manifest with a service and a deployment, from its text to the cluster.
use microkube.Base.{
  ℕ, String, true, false, Option, none, some, List, [], ◌∷◌, length, ◌⊎◌, inr, ◌≡◌, ◌≢◌, ◌↔◌, refl,
  if◌then◌else◌,
}
use microkube.Base.Bytes.{Bytes, codes, equal}
use microkube.Base.Texts as Texts
use microkube.Manifests.{Deployment, Object, apps_deployment, other_object}
use microkube.Manifests.Documents.{split_docs}
use microkube.Manifests.Documents.Laws.{joined, joined-split_docs}
use microkube.Manifests.Documents.Printed.{are_documents, split_docs-joined}
use microkube.Manifests.Codegen.{ManifestCodegen, new_manifest_codegen}
use microkube.Manifests.Applied.{
  KubeManifestBase, returned, panicked, Api, DeploymentStatus, is_healthy, init_health_check,
  apply_to_cluster,
}
use microkube.Manifests.Applied.Dumped.{apply_to_cluster_lem}
use microkube.Manifests.Applied.Healthy.{AllReady, is_healthy_iff}

abbrev service_doc : Bytes
service_doc = codes "kind: Service\n"

abbrev deployment_doc : Bytes
deployment_doc = codes "\nkind: Deployment\n"

abbrev two_docs : List Bytes
two_docs = service_doc ∷ deployment_doc ∷ []

abbrev dns : Deployment
dns = record { namespace = "kube-system"; name = "dns"; probes = false ∷ true ∷ [] }

abbrev two_objects : List (Object × String)
two_objects = (other_object "Service", "v1") ∷ (apps_deployment dns, "apps/v1") ∷ []

abbrev decode_doc : Bytes → String ⊎ (Object × String)
decode_doc doc =
    if equal doc service_doc
    then inr (other_object "Service", "v1")
    else inr (apps_deployment dns, "apps/v1")

abbrev to_json : String → Object → String
to_json gv (other_object kind) = Texts.◌++◌ kind "\n"
to_json gv obj = Texts.◌++◌ "Deployment" "\n"

two_docs-are_documents : are_documents true two_docs ≡ true
unfolding are_documents
two_docs-are_documents = refl

joined-split_docs_example :
    joined (split_docs (codes "a\n---\nb\n------")) ≡ codes "a\n---\nb\n------"
joined-split_docs_example = joined-split_docs (codes "a\n---\nb\n------")

split_docs-joined_example : split_docs (joined two_docs) ≡ two_docs
split_docs-joined_example = split_docs-joined two_docs two_docs-are_documents

abbrev generator : ManifestCodegen
generator =
    new_manifest_codegen "dns.yaml" "manifests" "dns" "dns.go" ""
      "github.com/vs-eth/microkube/internal"

abbrev dns_base : KubeManifestBase ℕ
dns_base = record {
  objects = "Service" ∷ "Deployment" ∷ [];
  health_obj = "Deployment";
  client = none;
  health_obj_parsed = none;
  name = "Dns";
}

abbrev no_error : Option String
no_error = none

abbrev accept_all : Bytes → Bytes → ℕ × Option String
accept_all written bytes = (length bytes, none)

apply_to_cluster_lem_example :
    apply_to_cluster accept_all
      (inr "/tmp/kube-apply-manifest1")
      (λ args content. none)
      "kubeconfig"
      dns_base
    ≡ some (returned tt)
apply_to_cluster_lem_example =
    apply_to_cluster_lem accept_all (λ written bytes. refl) "/tmp/kube-apply-manifest1"
      (λ args content. none) "kubeconfig" dns_base

abbrev cluster : ℕ → Api → String → String → String ⊎ Option DeploymentStatus
cluster client api namespace name = inr (some (record { replicas = 2; ready_replicas = 2 }))

abbrev decode_dns : Bytes → String ⊎ Object
decode_dns text = inr (apps_deployment dns)

abbrev checked_base : KubeManifestBase ℕ
checked_base = record dns_base { client = some 0; health_obj_parsed = some (apps_deployment dns) }

dns_init :
    init_health_check decode_dns (λ kubeconfig. inr tt) (λ config. inr 0) "kubeconfig" dns_base
    ≡ (none, checked_base)
unfolding init_health_check
dns_init = refl

is_healthy_iff_example :
    (is_healthy cluster checked_base ≢ panicked)
    × ((is_healthy cluster checked_base ≡ returned true) ↔ (
        (client : ℕ) × (object : Object) × (checked_base.client ≡ some client)
        × (decode_dns (codes dns_base.health_obj) ≡ inr object)
        × AllReady cluster client object))
is_healthy_iff_example =
    is_healthy_iff cluster decode_dns (λ kubeconfig. inr (tt {0})) (λ config. inr 0) "kubeconfig"
      dns_base checked_base dns_init
