-- ===== src/Ports/Claims.antt =====
-- What a search returns, and which sockets are held after it.
use mcu_debug.Prelude.{
  ℕ, zero, suc, ◌+◌, Bool, true, false, ◌||◌, Option, none, some, List, [], ◌∷◌, ◌++◌,
  if◌then◌else◌, ◌≡◌, refl, sym, ◌∙◌, arith, append-nil, append_assoc,
}
use mcu_debug.Ports.Scan.{Host, Socket, has, close_servers, claim_hosts, claim_each, claim_port}
use mcu_debug.Ports.Sockets.{times, times-append, times-close_servers}

abbrev pub on_hosts : ℕ → List Host → List Socket
on_hosts port [] = []
on_hosts port (host ∷ hosts) = (port, host) ∷ on_hosts port hosts

abbrev pub count_up : ℕ → ℕ → List ℕ
count_up first zero = []
count_up first (suc n) = first ∷ count_up (suc first) n

-- The sockets `servers` are held beside those of `before`.
abbrev pub Owns : List Socket → List Socket → List Socket → Type 0
Owns servers before held = (n : ℕ) → times n held ≡ times n servers + times n before

pub closed_all :
    (servers before held : List Socket)
    → Owns servers before held
    → Owns [] before (close_servers servers held)
closed_all servers before held owns n =
    omega (arith, owns n, times-close_servers servers held (λ m. omega (arith, owns m)) n)

-- A claim of the hosts of a port took all of them, or none.
abbrev Claimed :
    ℕ → List Host → List Socket → List Socket → Option (List Socket) → List Socket → Type 0
Claimed port hosts servers before none held = Owns [] before held
Claimed port hosts servers before (some new) held =
    (new ≡ servers ++ on_hosts port hosts) × Owns new before held

module _ (can_listen : Socket → List Socket → Bool) (independent : Bool) where
  claim_each-Claimed :
      (port : ℕ) (hosts : List Host) (servers before held : List Socket)
      → Owns servers before held
      → let r = claim_each can_listen independent port hosts servers held in
        Claimed port hosts servers before r.0 r.1
  unfolding claim_each
  claim_each-Claimed port [] servers before held owns = (sym (append-nil servers), owns)
  claim_each-Claimed port (host ∷ hosts) servers before held owns =
      by_flag (can_listen (port, host) held) (λ more.
        claim_each-Claimed port hosts (servers ++ (port, host) ∷ []) before ((port, host) ∷ held)
          more)
    where
      taken : Owns (servers ++ (port, host) ∷ []) before ((port, host) ∷ held)
      taken n = ground (arith, owns n, times-append n servers ((port, host) ∷ []))

      next : Option (List Socket) × List Socket
      next =
          claim_each can_listen independent port hosts (servers ++ (port, host) ∷ [])
            ((port, host) ∷ held)

      again :
          (o : Option (List Socket)) (l : List Socket)
          → Claimed port hosts (servers ++ (port, host) ∷ []) before o l
          → Claimed port (host ∷ hosts) servers before o l
      again none l c = c
      again (some new) l (e, c) =
          (e ∙ append_assoc servers ((port, host) ∷ []) (on_hosts port hosts), c)

      by_flag :
          (b : Bool)
          → (Owns (servers ++ (port, host) ∷ []) before ((port, host) ∷ held)
              → Claimed port hosts (servers ++ (port, host) ∷ []) before next.0 next.1)
          → let r = if b then next else (none, close_servers servers held) in
            Claimed port (host ∷ hosts) servers before r.0 r.1
      by_flag true later = again next.0 next.1 (later taken)
      by_flag false later = closed_all servers before held owns

  -- A port that neither set names.
  abbrev pub IsAllowed : List ℕ → List ℕ → ℕ → Type 0
  IsAllowed avoid avoid_ports port = (has port avoid ≡ false) × (has port avoid_ports ≡ false)

  abbrev pub PortClaimed :
      ℕ → List ℕ → List ℕ → List Socket → Option (List Socket) → List Socket → Type 0
  PortClaimed port avoid avoid_ports before none held = Owns [] before held
  PortClaimed port avoid avoid_ports before (some new) held =
      IsAllowed avoid avoid_ports port
      × (new ≡ on_hosts port (claim_hosts independent))
      × Owns new before held

  pub claim_port-PortClaimed :
      (port : ℕ) (avoid avoid_ports : List ℕ) (held : List Socket)
      → let r = claim_port can_listen independent port avoid avoid_ports held in
        PortClaimed port avoid avoid_ports held r.0 r.1
  unfolding claim_port
  claim_port-PortClaimed port avoid avoid_ports held =
      by_flags (has port avoid) (has port avoid_ports) refl refl
    where
      claimed : Option (List Socket) × List Socket
      claimed = claim_each can_listen independent port (claim_hosts independent) [] held

      allowed :
          (o : Option (List Socket)) (l : List Socket)
          → IsAllowed avoid avoid_ports port
          → Claimed port (claim_hosts independent) [] held o l
          → PortClaimed port avoid avoid_ports held o l
      allowed none l a c = c
      allowed (some new) l a (e, c) = (a, e, c)

      by_flags :
          (a b : Bool)
          → has port avoid ≡ a
          → has port avoid_ports ≡ b
          → let r = if a || b then (none, held) else claimed in
            PortClaimed port avoid avoid_ports held r.0 r.1
      by_flags true b e f = λ n. omega arith
      by_flags false true e f = λ n. omega arith
      by_flags false false e f =
          allowed claimed.0 claimed.1 (e, f)
            (claim_each-Claimed port (claim_hosts independent) [] held held (λ n. omega arith))
