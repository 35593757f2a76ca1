-- ===== src/KubeClient/Examples.antt =====
-- The theorems on pkg/kube/KubeClient.go at concrete inputs.
use microkube.Base.{
  ℕ, zero, suc, ◌<◌, ◌≤◌, leb, none, some, true, false, List, [], ◌∷◌, ◌≡◌, inl, inr, refl, arith,
  String,
}
use microkube.KubeClient.Node.{
  Node, Listing, nodes, KubeClient, is_ready, Tick, ready, wait_for_node,
}
use microkube.KubeClient.Node.Laws.{
  client_of, IsSettled, IsQuiet, wait_for_node_ready, wait_for_node_ends,
}
use microkube.KubeClient.Drain.{Pod, Cluster, drained, drain_pods}
use microkube.KubeClient.Drain.Laws.{accepted, IsSafe, drain_pods_ends, drain_pods_refused}
use microkube.KubeClient.Lookup.{Service, Secret, find_service}
use microkube.KubeClient.Lookup.Laws.{PortChoice, find_service_lem}

-- A node that has only one condition.
abbrev node_with : String → Node
node_with status = record {
  name = "host";
  conditions = (record { kind = "Ready"; status = status }) ∷ [];
  unschedulable = true;
}

abbrev new_client : KubeClient
new_client = record { node = ""; node_ref = none }

-- The node registers in the second round, becomes ready in the third, and the deadline is then.
abbrev listing_at : ℕ → Listing
listing_at zero = nodes []
listing_at (suc zero) = nodes (node_with "False" ∷ [])
listing_at (suc (suc n)) = nodes (node_with "True" ∷ [])

abbrev tick : ℕ → Tick
tick n = record { expired = leb 3 n; listing = listing_at n }

tick-IsQuiet : (j : ℕ) → j < 2 → IsQuiet (tick j)
unfolding is_ready
tick-IsQuiet zero h = (refl, inl refl)
tick-IsQuiet (suc zero) h = (refl, inr (node_with "False", refl, refl))
tick-IsQuiet (suc (suc j)) h = absurd (omega arith)

wait_for_node_ready_example :
    wait_for_node tick 3 0 new_client ≡ ready (client_of (node_with "True")) true
unfolding is_ready
wait_for_node_ready_example =
    wait_for_node_ready tick 2 new_client (node_with "True") tt tick-IsQuiet refl refl

wait_for_node_ends_example : IsSettled (wait_for_node tick 4 0 new_client)
wait_for_node_ends_example = wait_for_node_ends tick 3 new_client refl

abbrev stale_client : KubeClient
stale_client = record { node = "host"; node_ref = some (node_with "True") }

abbrev two_pods : List Pod
two_pods =
    (record { name = "dns"; namespace = "kube-system" })
    ∷ (record { name = "web"; namespace = "default" })
    ∷ []

-- Both evictions are accepted, and the pods are gone in the second round.
abbrev cluster : Cluster
cluster = record {
  expired = leb 9;
  pods = some two_pods;
  evict = λ pod. true;
  found = λ round pod. leb round 0;
}

drain_pods_ends_example : IsSafe cluster (accepted cluster two_pods) (drain_pods cluster 10)
drain_pods_ends_example = drain_pods_ends cluster 9 two_pods refl refl

-- No eviction is accepted.
abbrev refusing : Cluster
refusing = record cluster { evict = λ pod. false; found = λ round pod. true }

refusing-in_time : (i : ℕ) → i ≤ 2 → leb 9 i ≡ false
refusing-in_time i h = ground arith

drain_pods_refused_example : drain_pods refusing 1 ≡ drained 0
drain_pods_refused_example =
    drain_pods_refused refusing 0 two_pods refl (refl, (refl, tt)) refusing-in_time

abbrev known_client : KubeClient
known_client = record { node = "host"; node_ref = some (node_with "True") }

abbrev dns : Service
dns = record {
  cluster_ip = "10.233.43.2";
  ports = (record { protocol = "UDP"; port = 53 }) ∷ (record { protocol = "TCP"; port = 53 }) ∷ [];
}

find_service_lem_example :
    (n : ℕ) × (find_service known_client (nodes []) (some dns)
      ≡ some (known_client, "10.233.43.2", n))
    × PortChoice dns.ports n
find_service_lem_example = find_service_lem known_client (nodes []) dns refl

abbrev secrets : List Secret
secrets =
    (record { name = "admin-user-token-a"; token = none })
    ∷ (record { name = "admin-user-token-b"; token = some "key" })
    ∷ []
