-- ===== src/KubeClient/Node.antt =====
-- findNode and WaitForNode of pkg/kube/KubeClient.go.
pub mod Laws
use text.Mathlib.Text.{◌==◌}
use microkube.Base.{
  ℕ, zero, suc, ◌+◌, String, Bool, true, false, not, Option, none, some, List, [], ◌∷◌,
  if◌then◌else◌,
}

-- A condition of a node's status.
pub record Condition : Type 0 where
  pub kind : String
  pub status : String

pub record Node : Type 0 where
  pub name : String
  pub conditions : List Condition
  pub unschedulable : Bool

-- What listing the nodes answers.
pub data Listing : Type 0 where
  nodes : List Node → Listing
  list_error : Listing

pub record KubeClient : Type 0 where
  pub node : String
  pub node_ref : Option Node

-- The switch on the number of nodes; `none` is a logrus Fatal, which ends the process.
unfoldable pub take_node : KubeClient → Listing → Option KubeClient
take_node k list_error = none
take_node k (nodes []) = some k
take_node k (nodes (n ∷ [])) = some (record k { node = n.name; node_ref = some n })
take_node k (nodes (n ∷ _ ∷ _)) = none

-- findNode, where `listing` is what a list call would answer.
unfoldable pub find_node : KubeClient → Listing → Option KubeClient
unfolding take_node
find_node k listing = if not (k.node == "") then some k else take_node k listing

-- The loop of WaitForNode over the conditions: the last one of type Ready decides.
unfoldable pub scan_conditions : Bool → List Condition → Bool
scan_conditions node_ready [] = node_ready
scan_conditions node_ready (condition ∷ conditions) =
    scan_conditions (if condition.kind == "Ready" then condition.status == "True" else node_ready)
      conditions

unfoldable pub is_ready : Node → Bool
unfolding scan_conditions
is_ready n = scan_conditions false n.conditions

-- What one round of the loop meets: whether the deadline has passed, and the nodes.
pub record Tick : Type 0 where
  pub expired : Bool
  pub listing : Listing

-- `ready` holds the client, and whether the node was made schedulable.
pub data Waited : Type 0 where
  ready : KubeClient → Bool → Waited
  deadline_exceeded : Waited
  fatal : Waited
  out_of_fuel : Waited

-- WaitForNode: `i` rounds have passed. Between two rounds the code sleeps for a second.
unfoldable pub wait_for_node : (ℕ → Tick) → ℕ → ℕ → KubeClient → Waited
unfolding find_node is_ready
wait_for_node tick zero i k = out_of_fuel
wait_for_node tick (suc fuel) i k = elim (tick i).expired [
  | true ↦ deadline_exceeded
  | false ↦ elim (find_node (record k { node = "" }) (tick i).listing) [
    | none ↦ fatal
    | some k' ↦ elim k'.node_ref [
      | none ↦ wait_for_node tick fuel (i + 1) k'
      | some n ↦ elim (is_ready n) [
        | true ↦ ready k' n.unschedulable
        | false ↦ wait_for_node tick fuel (i + 1) k'
      ]
    ]
  ]
]
