-- ===== src/Ports/Scan.antt =====
-- Claiming ports by holding sockets on them. Whether the system lets this process listen on a port,
-- given the sockets that it holds, is a parameter, and so is whether the two hosts are independent.
use mcu_debug.Prelude.{
  ℕ, zero, suc, ◌+◌, ◌-◌, ◌*◌, min, Bool, false, ◌&&◌, ◌||◌, Option, none, some, List, [], ◌∷◌,
  ◌++◌, ◌==◌, ltb, leb, if◌then◌else◌, length,
}

pub data Host : Type 0 where
  loopback all_interfaces : Host

abbrev pub Socket : Type 0
Socket = ℕ × Host

-- A number of its own for each socket.
unfoldable pub code_of : Socket → ℕ
code_of (port, loopback) = 2 * port
code_of (port, all_interfaces) = 2 * port + 1

unfoldable pub max_port : ℕ
max_port = 65535

unfoldable pub ephemeral_port_start : ℕ
ephemeral_port_start = 32768

-- DefaultPortBase.scanner
unfoldable pub scanner_base : ℕ
scanner_base = 2500

unfoldable pub has : ℕ → List ℕ → Bool
has port [] = false
has port (p ∷ ps) = p == port || has port ps

-- `closeServer`: the socket is no longer held.
unfoldable pub close_server : Socket → List Socket → List Socket
close_server server [] = []
close_server server (s ∷ held) =
    let rest = close_server server held in if code_of s == code_of server then held else s ∷ rest

unfoldable pub close_servers : List Socket → List Socket → List Socket
close_servers [] held = held
close_servers (server ∷ servers) held = close_servers servers (close_server server held)

unfoldable pub claim_hosts : Bool → List Host
claim_hosts independent =
    if independent then loopback ∷ all_interfaces ∷ [] else all_interfaces ∷ []

-- PortRangeLock, which is not released.
pub record PortRangeLock : Type 0 where
  pub servers : List Socket
  pub ports : List ℕ

abbrev pub first_port : ℕ → ℕ
first_port preferred =
    let start = if preferred == 0 then scanner_base else preferred in min start max_port

abbrev pub ceiling : ℕ → ℕ
ceiling start = if leb ephemeral_port_start start then max_port else ephemeral_port_start - 1

module _ (can_listen : Socket → List Socket → Bool) (independent : Bool) where
  -- The loop of `claimPort` over the hosts.
  unfoldable pub claim_each :
      ℕ → List Host → List Socket → List Socket → Option (List Socket) × List Socket
  claim_each port [] servers held = (some servers, held)
  claim_each port (host ∷ hosts) servers held =
      if can_listen (port, host) held
      then claim_each port hosts (servers ++ (port, host) ∷ []) ((port, host) ∷ held)
      else (none, close_servers servers held)

  unfoldable pub claim_port : ℕ → List ℕ → List ℕ → List Socket → Option (List Socket) × List Socket
  claim_port port avoid avoid_ports held =
      if has port avoid || has port avoid_ports
      then (none, held)
      else claim_each port (claim_hosts independent) [] held

  -- The loop of `findAvailablePortRange`, with the number of ports that are left up to the ceiling.
  unfoldable pub scan :
      ℕ
      → Bool
      → List ℕ
      → List ℕ
      → ℕ
      → ℕ
      → List Socket
      → List ℕ
      → List Socket
      → Option PortRangeLock × List Socket
  scan wanted consecutive avoid avoid_ports zero port servers ports held =
      (none, close_servers servers held)
  scan wanted consecutive avoid avoid_ports (suc left) port servers ports held =
      let (claimed, held') = claim_port port avoid avoid_ports held in
      elim claimed [
        | some new ↦
            if length (ports ++ port ∷ []) == wanted
            then (some (record { servers = servers ++ new; ports = ports ++ port ∷ [] }), held')
            else scan wanted consecutive avoid avoid_ports left (suc port) (servers ++ new)
                (ports ++ port ∷ []) held'
        | none ↦
            if consecutive && ltb 0 (length ports)
            then scan wanted consecutive avoid avoid_ports left (suc port) [] []
                (close_servers servers held')
            else scan wanted consecutive avoid avoid_ports left (suc port) servers ports held'
      ]

  -- The lock, or none where it throws, and the sockets that are held then.
  unfoldable pub find_available_port_range :
      ℕ → ℕ → Bool → List ℕ → List ℕ → List Socket → Option PortRangeLock × List Socket
  find_available_port_range zero preferred consecutive avoid avoid_ports held =
      (some (record { servers = []; ports = [] }), held)
  find_available_port_range (suc more) preferred consecutive avoid avoid_ports held =
      let start = first_port preferred in
      scan (suc more) consecutive avoid avoid_ports (ceiling start + 1 - start) start [] [] held
