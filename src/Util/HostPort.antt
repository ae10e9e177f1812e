-- ===== src/Util/HostPort.antt =====
-- practice/util/service.go: the address of a registry pod.
pub mod Published
use Prim.Native.Nat.{◌/◌, ◌%◌}
use checkpoint_operator.Base.{ℕ, zero, suc, ◌+◌, List, [], ◌∷◌, ◌++◌, Bytes, if◌then◌else◌, ◌==◌}
use checkpoint_operator.Cluster.{Pod, Container}

-- The digits of a number in front of `rest`, with fuel for them.
digits : ℕ → ℕ → Bytes → Bytes
digits zero n rest = rest
digits (suc f) n rest =
    let d = (b'0' + n % 10) ∷ rest in
    let more = digits f (n / 10) d in if n / 10 == 0 then d else more

-- `%d` of a natural number: a number has no more digits than itself, plus one
unfoldable pub decimal : ℕ → Bytes
unfolding digits
decimal n = digits (suc n) n []

-- The inner loop: `break` after the first port.
first_port : Bytes → List ℕ → Bytes
first_port found [] = found
first_port found (p ∷ ps) = decimal p

-- The outer loop: a later container with a port replaces what was found.
unfoldable pub host_port_from : Bytes → List Container → Bytes
unfolding first_port
host_port_from found [] = found
host_port_from found (c ∷ cs) = host_port_from (first_port found c.host_ports) cs

unfoldable pub get_pod_host_port : Pod → Bytes
unfolding host_port_from
get_pod_host_port pod = pod.host_ip ++ b':' ∷ host_port_from [] pod.containers
