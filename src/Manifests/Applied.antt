-- ===== src/Manifests/Applied.antt =====
-- internal/manifests/KubeManifestBase.go. `C` is the type of clients of the cluster, `E` that of
-- the errors of what is called.
pub mod Healthy
pub mod Dumped
use microkube.Base.{
  ℕ, zero, suc, ◌+◌, String, Bool, true, false, Option, none, some, List, [], ◌∷◌, ◌++◌, ◌⊎◌, inl,
  inr, map, length, ltb, if◌then◌else◌,
}
use text.Mathlib.Text.{◌==◌}
use microkube.Base.Bytes.{Bytes, codes}
use microkube.Base.Texts as Texts
use microkube.Manifests.{Deployment, Object, apps_deployment, extensions_deployment, other_object}

pub record KubeManifestBase (C : Type 0) : Type 0 where
  pub objects : List String
  pub health_obj : String
  pub client : Option C
  pub health_obj_parsed : Option Object
  pub name : String

-- `&T{}` of a generated type.
abbrev pub empty_base : {C : Type 0} → KubeManifestBase C
empty_base = record {
  objects = [];
  health_obj = "";
  client = none;
  health_obj_parsed = none;
  name = "";
}

module _ {C : Type 0} where
  unfoldable pub register : String → KubeManifestBase C → KubeManifestBase C
  register manifest m = record m { objects = m.objects ++ manifest ∷ [] }

  unfoldable pub register_ho : String → KubeManifestBase C → KubeManifestBase C
  register_ho manifest m = record m { health_obj = manifest }

  unfoldable pub set_name : String → KubeManifestBase C → KubeManifestBase C
  set_name name m = record m { name = name }

-- What a call comes to; `panicked` is a panic.
pub data Outcome (A E : Type 0) : Type 0 where
  returned : A → Outcome A E
  failed : E → Outcome A E
  panicked : Outcome A E

-- `cut n xs` are the first `n` elements.
abbrev pub cut : ℕ → Bytes → Bytes
cut zero xs = []
cut (suc n) [] = []
cut (suc n) (x ∷ xs) = x ∷ cut n xs

module _ {E : Type 0} (writes : Bytes → Bytes → ℕ × Option E) where
  -- The inner loop of dumpToFile. Each round writes the object from its start again; `writes`
  -- stands for file.Write, by what is in the file and what is to be written. `none` where the
  -- fuel is used up.
  unfoldable pub write_object : ℕ → Bytes → ℕ → Bytes → Option (Outcome Bytes E)
  write_object zero obj pos written = none
  write_object (suc fuel) obj pos written =
      let (n, e) = writes written obj in
      let rest = write_object fuel obj (pos + n) (written ++ cut n obj) in
      if ltb pos (length obj)
      then elim e [ some e ↦ some panicked | none ↦ rest ]
      else some (returned written)

  -- The outer loop; a write of a byte or more in every round ends within that many rounds.
  unfoldable pub write_objects : List Bytes → Bytes → Option (Outcome Bytes E)
  unfolding write_object
  write_objects [] written = some (returned written)
  write_objects (obj ∷ objs) written = elim (write_object (suc (length obj)) obj 0 written) [
    | none ↦ none
    | some (returned written') ↦ write_objects objs written'
    | some (failed e) ↦ some (failed e)
    | some panicked ↦ some panicked
  ]

-- runApply; `kubectl` stands for the command, by its arguments and what the file holds.
unfoldable pub run_apply :
    {E : Type 0} → (List String → Bytes → Option E) → String → String → Bytes → Option E
run_apply kubectl kubeconfig file content =
    kubectl (Texts.◌++◌ "--kubeconfig=" kubeconfig ∷ "apply" ∷ "-f" ∷ file ∷ []) content

module _ {C E : Type 0} where
  -- dumpToFile; `temp` is the name that ioutil.TempFile gives. The name and what is in the file.
  unfoldable pub dump_to_file :
      (Bytes → Bytes → ℕ × Option E)
      → E ⊎ String
      → KubeManifestBase C
      → Option (Outcome (String × Bytes) E)
  unfolding write_objects
  dump_to_file writes temp m = elim temp [
    | inl e ↦ some (failed e)
    | inr name ↦ elim (write_objects writes (map codes m.objects) []) [
      | none ↦ none
      | some (returned written) ↦ some (returned (name, written))
      | some (failed e) ↦ some (failed e)
      | some panicked ↦ some panicked
    ]
  ]

  -- ApplyToCluster
  unfoldable pub apply_to_cluster :
      (Bytes → Bytes → ℕ × Option E)
      → E ⊎ String
      → (List String → Bytes → Option E)
      → String
      → KubeManifestBase C
      → Option (Outcome (Unit {0}) E)
  unfolding dump_to_file run_apply
  apply_to_cluster writes temp kubectl kubeconfig m = elim (dump_to_file writes temp m) [
    | none ↦ none
    | some (failed e) ↦ some (failed e)
    | some panicked ↦ some panicked
    | some (returned (file, content)) ↦ elim (run_apply kubectl kubeconfig file content) [
      | none ↦ some (returned tt)
      | some e ↦ some (failed e)
    ]
  ]

-- The two clients that can be asked for a deployment.
pub data Api : Type 0 where
  apps_v1 apps_v1beta1 : Api

-- DeploymentStatus, of which the code compares two numbers.
pub record DeploymentStatus : Type 0 where
  pub replicas : ℕ
  pub ready_replicas : ℕ

-- How the answer of the cluster is judged.
unfoldable pub judge : {E : Type 0} → E ⊎ Option DeploymentStatus → Outcome Bool E
judge (inl e) = failed e
judge (inr none) = returned false
judge (inr (some status)) =
    returned (if ltb status.ready_replicas status.replicas then false else true)

module _ {C E : Type 0} (get : C → Api → String → String → E ⊎ Option DeploymentStatus) where
  -- What a deployment is asked for.
  unfoldable pub judged : C → Api → Deployment → Outcome Bool E
  unfolding judge
  judged client api deployment = judge (get client api deployment.namespace deployment.name)

  -- The two type assertions of IsHealthy.
  unfoldable pub check_object : C → Object → Outcome Bool E
  unfolding judged
  check_object client (apps_deployment deployment) = judged client apps_v1 deployment
  check_object client (extensions_deployment deployment) = judged client apps_v1beta1 deployment
  check_object client (other_object kind) = returned false

  -- IsHealthy
  unfoldable pub is_healthy : KubeManifestBase C → Outcome Bool E
  unfolding check_object
  is_healthy m = elim m.client [
    | none ↦ panicked
    | some client ↦ elim m.health_obj_parsed [
      | none ↦ returned false
      | some object ↦ check_object client object
    ]
  ]

-- The errors of InitHealthCheck.
pub data InitError (E : Type 0) : Type 0 where
  no_health_manifest : InitError E
  not_decoded no_config no_client : E → InitError E

-- InitHealthCheck, with the decoder, clientcmd and kubernetes.NewForConfig; where the last fails
-- it leaves a nil pointer, with which IsHealthy panics as it does without a client.
unfoldable pub init_health_check :
    {C E Config : Type 0}
    → (Bytes → E ⊎ Object)
    → (String → E ⊎ Config)
    → (Config → E ⊎ C)
    → String
    → KubeManifestBase C
    → Option (InitError E) × KubeManifestBase C
init_health_check {C = C} decode build_config new_for_config kubeconfig m =
    if m.health_obj == ""
    then (some no_health_manifest, m)
    else elim (decode (codes m.health_obj)) [
      | inl e ↦ (some (not_decoded e), record m { health_obj_parsed = none })
      | inr obj ↦
          let parsed : KubeManifestBase C = record m { health_obj_parsed = some obj } in
          elim (build_config kubeconfig) [
            | inl e ↦ (some (no_config e), parsed)
            | inr config ↦ elim (new_for_config config) [
              | inl e ↦ (some (no_client e), record parsed { client = none })
              | inr client ↦ (none, record parsed { client = some client })
            ]
          ]
    ]
