-- ===== src/Handlers/Env/Laws.antt =====
-- The ports of an execution environment, and what one environment takes from another.
use microkube.Base.{
  ℕ, zero, suc, ◌+◌, ◌<◌, List, [], ◌∷◌, Option, some, ◌≡◌, refl, sym, ap, ◌∙◌, arith, get_elem?,
}
use microkube.Handlers.Env.{ExecutionEnvironment, init_ports, copy_information_from_base}

-- All ports, in the order of the fields.
abbrev pub ports : ExecutionEnvironment → List ℕ
ports e =
    e.etcd_client_port ∷ e.etcd_peer_port ∷ e.kube_api_port ∷ e.kube_node_api_port
    ∷ e.kube_controller_manager_port ∷ e.kubelet_health_port ∷ e.kube_proxy_health_port
    ∷ e.kube_proxy_metrics_port ∷ e.kube_scheduler_health_port ∷ e.kube_scheduler_metrics_port ∷ []

abbrev from : ℕ → ℕ → List ℕ
from zero base = []
from (suc n) base = base ∷ from n (base + 1)

from-get : (n i base : ℕ) → i < n → get_elem? (from n base) i ≡ some (base + i)
from-get zero i base h = absurd (omega arith)
from-get (suc n) zero base h = ground arith
from-get (suc n) (suc i) base h = ground (arith, from-get n i (base + 1))

ports-init_ports : (e : ExecutionEnvironment) (base : ℕ) → ports (init_ports e base) ≡ from 10 base
unfolding init_ports
ports-init_ports e base = ground arith

port_at :
    (e : ExecutionEnvironment) (base i : ℕ)
    → i < 10
    → get_elem? (ports (init_ports e base)) i ≡ some (base + i)
port_at e base i h = ap (λ l. get_elem? l i) (ports-init_ports e base) ∙ from-get 10 i base h

add_cancel : (base i j : ℕ) → ◌≡◌ {A = Option ℕ} (some (base + i)) (some (base + j)) → i ≡ j
add_cancel base i j h = ground arith

-- No two of the ten ports that `InitPorts` gives are equal, and the i-th is `base + i`.
pub ports-init_ports_apart :
    (e : ExecutionEnvironment) (base i j : ℕ)
    → i < 10
    → j < 10
    → (get_elem? (ports (init_ports e base)) i ≡ some (base + i))
      × (get_elem? (ports (init_ports e base)) i ≡ get_elem? (ports (init_ports e base)) j → i ≡ j)
ports-init_ports_apart e base i j hi hj = (
  port_at e base i hi,
  λ h. add_cancel base i j (sym (port_at e base i hi) ∙ h ∙ port_at e base j hj),
)

-- `CopyInformationFromBase` makes all ports and addresses and the sudo method those of the other
-- environment, keeps the binary, the working directory and the two function values, and
-- undoes an `InitPorts` before it.
pub copy_information_from_base_lem :
    (e o : ExecutionEnvironment) (base : ℕ)
    → let c = copy_information_from_base (init_ports e base) o in
      (ports c ≡ ports o)
      × (c.listen_address ≡ o.listen_address)
      × (c.service_address ≡ o.service_address)
      × (c.dns_address ≡ o.dns_address)
      × (c.sudo_method ≡ o.sudo_method)
      × (c.binary ≡ e.binary)
      × (c.workdir ≡ e.workdir)
      × (c.output_handler ≡ e.output_handler)
      × (c.exit_handler ≡ e.exit_handler)
      × (c ≡ copy_information_from_base e o)
unfolding copy_information_from_base init_ports
copy_information_from_base_lem e o base =
    (refl, refl, refl, refl, refl, refl, refl, refl, refl, refl)
