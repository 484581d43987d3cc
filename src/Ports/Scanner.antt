-- ===== src/Ports/Scanner.antt =====
-- TcpPortScanner: the locks that are held and the ports that were given out.
use mcu_debug.Prelude.{
  ℕ, Bool, true, false, ◌&&◌, ◌||◌, Option, none, some, List, [], ◌∷◌, ◌++◌, if◌then◌else◌,
}
use mcu_debug.Ports.Scan.{
  Host, loopback, all_interfaces, Socket, has, close_servers, PortRangeLock,
  find_available_port_range,
}

-- The locks that are held, the set of ports to avoid, what was announced, and the sockets of the
-- process.
pub record TcpPortScanner : Type 0 where
  pub held_locks : List PortRangeLock
  pub avoid_ports : List ℕ
  pub announced : List (List ℕ)
  pub held : List Socket

-- A set: a port that is in it already is not added again.
unfoldable pub add_ports : List ℕ → List ℕ → List ℕ
add_ports [] set = set
add_ports (p ∷ ps) set = if has p set then add_ports ps set else add_ports ps (set ++ p ∷ [])

unfoldable pub emit_allocated : List ℕ → TcpPortScanner → TcpPortScanner
emit_allocated [] s = s
emit_allocated (p ∷ ps) s = record s {
  avoid_ports = add_ports (p ∷ ps) s.avoid_ports;
  announced = s.announced ++ (p ∷ ps) ∷ [];
}

unfoldable pub release_locks : List PortRangeLock → List Socket → List Socket
release_locks [] held = held
release_locks (lock ∷ locks) held = release_locks locks (close_servers lock.servers held)

unfoldable pub release_held_ports : TcpPortScanner → TcpPortScanner
release_held_ports s = record s { held_locks = []; held = release_locks s.held_locks s.held }

abbrev pub all_in : List ℕ → List ℕ → Bool
all_in [] wanted = true
all_in (p ∷ ps) wanted = has p wanted && all_in ps wanted

-- The locks that stay, and those whose ports are all wanted.
unfoldable pub sort_locks : List ℕ → List PortRangeLock → List PortRangeLock × List PortRangeLock
sort_locks wanted [] = ([], [])
sort_locks wanted (lock ∷ locks) =
    let (kept, released) = sort_locks wanted locks in
    if all_in lock.ports wanted then (kept, lock ∷ released) else (lock ∷ kept, released)

unfoldable pub unlock_ports_if_free : List ℕ → TcpPortScanner → TcpPortScanner
unlock_ports_if_free ports s =
    let (kept, released) = sort_locks ports s.held_locks in
    record s { held_locks = kept; held = release_locks released s.held }

module _ (can_listen : Socket → List Socket → Bool) (independent : Bool) where
  abbrev pub with_lock :
      Option PortRangeLock → List Socket → TcpPortScanner → Option (List ℕ) × TcpPortScanner
  with_lock none held s = (none, record s { held = held })
  with_lock (some lock) held s = (
    some lock.ports,
    emit_allocated lock.ports (record s { held_locks = s.held_locks ++ lock ∷ []; held = held }),
  )

  -- The ports, or none where it throws.
  unfoldable pub find_free_ports :
      ℕ → ℕ → Bool → List ℕ → TcpPortScanner → Option (List ℕ) × TcpPortScanner
  find_free_ports count start consecutive avoid s =
      let (lock, held) =
        find_available_port_range can_listen independent count start consecutive avoid s.avoid_ports
          s.held in
      with_lock lock held s

  -- The loop of `isPortInUse` over the hosts: a socket that is taken is closed at once.
  unfoldable pub any_in_use : ℕ → List Host → List Socket → Bool
  any_in_use port [] held = false
  any_in_use port (host ∷ hosts) held =
      let rest = any_in_use port hosts held in if can_listen (port, host) held then rest else true

  abbrev hosts_or_default : List Host → List Host
  hosts_or_default [] = loopback ∷ all_interfaces ∷ []
  hosts_or_default (h ∷ hs) = h ∷ hs

  unfoldable pub is_port_in_use : ℕ → List ℕ → List Host → TcpPortScanner → Bool
  is_port_in_use port avoid hosts s =
      has port avoid || any_in_use port (hosts_or_default hosts) s.held
