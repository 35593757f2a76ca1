-- ===== src/Services/ApiServer/Ports.antt =====
-- The node port range of the API server.
use microkube.Base.{ℕ, ◌≤◌, arith, List, [], ◌∷◌, All}
use microkube.Base.Int.{ℤ, pos, ◌≤ℤ◌}
use microkube.Services.ApiServer.{PortRange, widen, widen_all, KubeApiServerHandler, service_ports}

-- The range `r` lies in the range `q`.
pub record IsWithin (r q : PortRange) : Type 0 where
  pub below : q.lower ≤ℤ r.lower
  pub above : r.upper ≤ℤ q.upper

-- A port of the range.
abbrev pub Holds : PortRange → ℤ → Type 0
Holds r port = (r.lower ≤ℤ port) × (port ≤ℤ r.upper)

widen_lower :
    (r : PortRange) (port : ℤ) → ((widen r port).lower ≤ℤ r.lower) × ((widen r port).lower ≤ℤ port)
unfolding widen
widen_lower r port = ground arith

widen_upper :
    (r : PortRange) (port : ℤ) → (r.upper ≤ℤ (widen r port).upper) × (port ≤ℤ (widen r port).upper)
unfolding widen
widen_upper r port = ground arith

widen_all-IsWithin : (ports : List ℤ) (r : PortRange) → IsWithin r (widen_all r ports)
unfolding widen_all
widen_all-IsWithin [] r = record { below = omega arith; above = omega arith }
widen_all-IsWithin (port ∷ ports) r =
    let later = widen_all-IsWithin ports (widen r port) in
    record {
      below = omega (arith, later.below, widen_lower r port);
      above = omega (arith, later.above, widen_upper r port);
    }

widen_all-Holds : (ports : List ℤ) (r : PortRange) → All (Holds (widen_all r ports)) ports
unfolding widen_all
widen_all-Holds [] r = tt
widen_all-Holds (port ∷ ports) r =
    let later = widen_all-IsWithin ports (widen r port) in
    (
      (
        omega (arith, later.below, widen_lower r port),
        omega (arith, later.above, widen_upper r port),
      ),
      widen_all-Holds ports (widen r port),
    )

-- The node port range that the API server is started with holds its own two ports, the port of
-- etcd, and every port from 7000 to 9000.
pub service_ports_range :
    (handler : KubeApiServerHandler)
    → Holds (service_ports handler) (pos handler.etcd_client_port)
      × Holds (service_ports handler) (pos handler.kube_api_port)
      × Holds (service_ports handler) (pos handler.kube_node_api_port)
      × ((port : ℕ) → 7000 ≤ port → port ≤ 9000 → Holds (service_ports handler) (pos port))
unfolding service_ports
service_ports_range handler =
    let first : PortRange = record { lower = pos 7000; upper = pos 9000 } in
    let ports : List ℤ =
      pos handler.etcd_client_port
      ∷ pos handler.kube_api_port
      ∷ pos handler.kube_node_api_port
      ∷ [] in
    let held = widen_all-Holds ports first in
    let all = widen_all-IsWithin ports first in
    (held.0, held.1.0, held.1.1.0, λ port l u. (omega (arith, all.below), omega (arith, all.above)))
