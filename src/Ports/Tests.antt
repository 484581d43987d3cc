-- ===== src/Ports/Tests.antt =====
-- A search on a machine where two sockets are taken.
use mcu_debug.Prelude.{All, Bool, true, false, not, List, [], ◌∷◌, ◌≡◌, refl, ◌+◌, ◌==◌, ◌||◌}
use mcu_debug.Ports.Scan.{loopback, Socket, code_of, find_available_port_range, first_port, ceiling}
use mcu_debug.Ports.Scan.{
  has, scan, claim_port, claim_each, claim_hosts, max_port, ephemeral_port_start, scanner_base,
}
use mcu_debug.Ports.Scanner.{
  TcpPortScanner, find_free_ports, emit_allocated, add_ports, release_held_ports,
}
use mcu_debug.Ports.Given.{find_free_ports-find_free_ports}
use mcu_debug.Ports.Search.{Outcome, find_available_port_range-Outcome}

-- The loopback of port 2001 and all interfaces of port 2003 are taken.
abbrev two_taken : Socket → List Socket → Bool
two_taken s held = not (code_of s == 4002 || code_of s == 4007)

find_available_port_range-Outcome_example :
    let start = first_port 2000 in
    let r =
      find_available_port_range two_taken true 2 2000 true (2004 ∷ []) [] ((1999, loopback) ∷ []) in
    Outcome two_taken true
      (2004 ∷ [])
      []
      true
      2
      start
      (ceiling start + 1)
      ((1999, loopback) ∷ [])
      r.0
      r.1
find_available_port_range-Outcome_example =
    find_available_port_range-Outcome two_taken true 2 2000 true (2004 ∷ []) []
      ((1999, loopback) ∷ [])

abbrev idle : TcpPortScanner
idle = record { held_locks = []; avoid_ports = []; announced = []; held = [] }

abbrev all_free : Socket → List Socket → Bool
all_free s held = true

find_free_ports-find_free_ports_example : All (λ p. has p (65531 ∷ 65532 ∷ []) ≡ false) (65533 ∷ [])
unfolding find_free_ports find_available_port_range scan claim_port claim_each claim_hosts max_port
    ephemeral_port_start scanner_base has emit_allocated add_ports release_held_ports
find_free_ports-find_free_ports_example =
    find_free_ports-find_free_ports all_free false 2 1 65531 65531 true false [] [] idle
      (65531 ∷ 65532 ∷ []) (65533 ∷ []) refl refl
