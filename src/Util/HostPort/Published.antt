-- ===== src/Util/HostPort/Published.antt =====
-- Which of a registry pod's ports is in its address.
use checkpoint_operator.Base.{ℕ, List, [], ◌∷◌, ◌++◌, Option, none, some, Bytes, ◌≡◌, refl, ap, ◌∙◌}
use checkpoint_operator.Cluster.{Pod, Container}
use checkpoint_operator.Util.HostPort.{decimal, first_port, host_port_from, get_pod_host_port}

abbrev pub or_first : Option ℕ → List ℕ → Option ℕ
or_first (some port) ports = some port
or_first none [] = none
or_first none (port ∷ ports) = some port

-- The first port of the last container that has one.
abbrev pub published : List Container → Option ℕ
published [] = none
published (c ∷ cs) = or_first (published cs) c.host_ports

-- Its digits, or `text` where there is none.
abbrev pub digits_or : Bytes → Option ℕ → Bytes
digits_or text none = text
digits_or text (some port) = decimal port

first_port-or_first :
    (found : Bytes) (port : Option ℕ) (ports : List ℕ)
    → digits_or (first_port found ports) port ≡ digits_or found (or_first port ports)
unfolding first_port
first_port-or_first found (some port) ports = refl
first_port-or_first found none [] = refl
first_port-or_first found none (port ∷ ports) = refl

host_port_from-eq :
    (found : Bytes) (cs : List Container) → host_port_from found cs ≡ digits_or found (published cs)
unfolding host_port_from
host_port_from-eq found [] = refl
host_port_from-eq found (c ∷ cs) =
    host_port_from-eq (first_port found c.host_ports) cs
    ∙ first_port-or_first found (published cs) c.host_ports

-- The address is that of the pod's node, with this port.
abbrev pub address : Pod → Bytes
address pod = pod.host_ip ++ b':' ∷ digits_or [] (published pod.containers)

pub get_pod_host_port-eq : (pod : Pod) → get_pod_host_port pod ≡ address pod
unfolding get_pod_host_port
get_pod_host_port-eq pod =
    ap (λ port. pod.host_ip ++ b':' ∷ port) (host_port_from-eq [] pod.containers)
