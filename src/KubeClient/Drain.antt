-- ===== src/KubeClient/Drain.antt =====
-- DrainNode of pkg/kube/KubeClient.go.
pub mod Laws
use microkube.Base.{
  ℕ, zero, suc, ◌+◌, String, Bool, true, false, Option, none, some, List, [], ◌∷◌, ◌++◌,
  if◌then◌else◌,
}
use microkube.KubeClient.Node.{Listing, KubeClient, find_node}

pub record Pod : Type 0 where
  pub name : String
  pub namespace : String

-- What the API server and the clock answer to the calls of a drain: the deadline checks in their
-- order, the list of pods (`none` is an error), an eviction, and whether a pod is still found in
-- a round of the wait.
pub record Cluster : Type 0 where
  pub expired : ℕ → Bool
  pub pods : Option (List Pod)
  pub evict : Pod → Bool
  pub found : ℕ → Pod → Bool

-- What DrainNode comes to: nil after so many rounds of the wait, or an error.
pub data Drained : Type 0 where
  drained : ℕ → Drained
  deadline_exceeded : Drained
  no_node : Drained
  fatal : Drained
  out_of_fuel : Drained

module _ (c : Cluster) where
  -- The loop that evicts: `i` deadline checks have been made. The pods whose eviction was accepted
  -- are pending; `none` says that the deadline has passed.
  unfoldable pub evict_pods : ℕ → List Pod → List Pod → Option (List Pod × ℕ)
  evict_pods i pending [] = some (pending, i)
  evict_pods i pending (pod ∷ pods) =
      let rest = evict_pods (i + 1) (if c.evict pod then pending ++ pod ∷ [] else pending) pods in
      if c.expired i then none else rest

  -- How many pending pods are found in one round.
  unfoldable pub running_pods : ℕ → List Pod → ℕ
  running_pods round [] = 0
  running_pods round (pod ∷ pods) = (if c.found round pod then 1 else 0) + running_pods round pods

  -- The loop that waits; between two rounds the code sleeps for two seconds.
  unfoldable pub await_pods : ℕ → ℕ → ℕ → List Pod → Drained
  unfolding running_pods
  await_pods zero i round pending = out_of_fuel
  await_pods (suc fuel) i round pending = elim (c.expired i) [
    | true ↦ deadline_exceeded
    | false ↦ elim (running_pods round pending) [
      | zero ↦ drained round
      | suc _ ↦ await_pods fuel (i + 1) (round + 1) pending
    ]
  ]

  -- From the list of pods on; the node is unschedulable by then.
  unfoldable pub drain_pods : ℕ → Drained
  unfolding evict_pods await_pods
  drain_pods fuel = elim c.pods [
    | none ↦ fatal
    | some pods ↦ elim (evict_pods 0 [] pods) [
      | none ↦ deadline_exceeded
      | some (pending, i) ↦ await_pods fuel i 0 pending
    ]
  ]

  -- DrainNode, with the calls of setNodeUnschedulable that it makes.
  unfoldable pub drain_node : ℕ → KubeClient → Listing → Drained × List Bool
  unfolding drain_pods find_node
  drain_node fuel k listing = elim (find_node (record k { node = "" }) listing) [
    | none ↦ (fatal, [])
    | some k' ↦ elim k'.node_ref [ none ↦ (no_node, []) | some n ↦ (drain_pods fuel, true ∷ []) ]
  ]
