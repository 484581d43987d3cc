-- ===== src/Ports/Search.antt =====
-- A search returns ports that are all claimed, or leaves no socket behind.
use mcu_debug.Prelude.{
  ℕ, zero, suc, ◌+◌, ◌-◌, ◌≤◌, ◌<◌, Bool, true, false, ◌&&◌, Option, none, some, List, [], ◌∷◌,
  ◌++◌, ◌==◌, ltb, if◌then◌else◌, length, length-append, All, count, ◌≡◌, refl, sym, ap, ◌∙◌, arith,
  append-nil, append_assoc, nil_of_length,
}
use mcu_debug.Ports.Scan.{
  Socket, close_servers, claim_hosts, PortRangeLock, claim_port, scan, find_available_port_range,
  first_port, ceiling, max_port, ephemeral_port_start, scanner_base,
}
use mcu_debug.Ports.Sockets.{times-append}
use mcu_debug.Ports.Claims.{
  on_hosts, count_up, Owns, closed_all, IsAllowed, PortClaimed, claim_port-PortClaimed,
}

All-append {ℓ κ} :
    {A : Type ℓ} (P : A → Type κ) (xs ys : List A) → All P xs → All P ys → All P (xs ++ ys)
All-append P [] ys h k = k
All-append P (x ∷ xs) ys (h, hs) k = (h, All-append P xs ys hs k)

count-snoc : (n : ℕ) (xs : List ℕ) (m : ℕ) → count n (xs ++ m ∷ []) ≡ count n xs + count n (m ∷ [])
count-snoc n [] m = omega arith
count-snoc n (x ∷ xs) m = ground (arith, count-snoc n xs m)

count_up-snoc : (first n : ℕ) → count_up first n ++ (first + n) ∷ [] ≡ count_up first (suc n)
count_up-snoc first zero = ap (λ p. p ∷ []) (omega arith)
count_up-snoc first (suc n) =
    let same : first + suc n ≡ suc first + n = omega arith in
    ap (◌∷◌ first) (ap (λ p. count_up (suc first) n ++ p ∷ []) same ∙ count_up-snoc (suc first) n)

module _ (can_listen : Socket → List Socket → Bool) (independent : Bool)
    (avoid avoid_ports : List ℕ) (consecutive : Bool) (wanted start stop : ℕ)
    (before : List Socket) where
  -- The sockets that claim some ports.
  abbrev pub sockets_of : List ℕ → List Socket
  sockets_of [] = []
  sockets_of (p ∷ ps) = on_hosts p (claim_hosts independent) ++ sockets_of ps

  abbrev pub IsGood : ℕ → Type 0
  IsGood p = IsAllowed can_listen independent avoid avoid_ports p × (start ≤ p) × (p < stop)

  -- A lock on as many ports as wanted: they are allowed, in the range, different, and in a row where
  -- this is asked for, and the sockets held beside those of before are exactly the ones that claim them.
  pub record IsLocked (lock : PortRangeLock) (held : List Socket) : Type 0 where
    pub enough : length lock.ports ≡ wanted
    pub good : All IsGood lock.ports
    pub once : (p : ℕ) → count p lock.ports ≤ 1
    pub in_row : consecutive ≡ true → (first : ℕ) × (lock.ports ≡ count_up first wanted)
    pub exact : lock.servers ≡ sockets_of lock.ports
    pub owns : Owns lock.servers before held

  abbrev pub Outcome : Option PortRangeLock → List Socket → Type 0
  Outcome none held = Owns [] before held
  Outcome (some lock) held = IsLocked lock held

  record IsScan (port : ℕ) (servers : List Socket) (ports : List ℕ) (held : List Socket)
      : Type 0 where
    owns : Owns servers before held
    exact : servers ≡ sockets_of ports
    good : All IsGood ports
    fresh : (p : ℕ) → port ≤ p → count p ports ≡ 0
    once : (p : ℕ) → count p ports ≤ 1
    in_row : consecutive ≡ true → ports ≡ count_up (port - length ports) (length ports)
    room : length ports ≤ port
    short : length ports < wanted

  sockets_of-snoc :
      (ports : List ℕ) (port : ℕ)
      → sockets_of (ports ++ port ∷ [])
        ≡ sockets_of ports ++ on_hosts port (claim_hosts independent)
  sockets_of-snoc [] port = append-nil (on_hosts port (claim_hosts independent))
  sockets_of-snoc (p ∷ ps) port =
      ap (λ l. on_hosts p (claim_hosts independent) ++ l) (sockets_of-snoc ps port)
      ∙ sym (
          append_assoc (on_hosts p (claim_hosts independent)) (sockets_of ps)
            (on_hosts port (claim_hosts independent)))

  empty-IsScan :
      (port : ℕ) (held : List Socket) → 0 < wanted → Owns [] before held → IsScan port [] [] held
  empty-IsScan port held some_wanted owns = record {
    owns = owns;
    exact = refl;
    good = tt;
    fresh = λ p h. refl;
    once = λ p. omega arith;
    in_row = λ e. refl;
    room = omega arith;
    short = some_wanted;
  }

  -- The lock that one more port makes.
  record IsPushed (port : ℕ) (servers : List Socket) (ports : List ℕ) (held : List Socket)
      : Type 0 where
    owns : Owns servers before held
    exact : servers ≡ sockets_of ports
    good : All IsGood ports
    fresh : (p : ℕ) → suc port ≤ p → count p ports ≡ 0
    once : (p : ℕ) → count p ports ≤ 1
    in_row : consecutive ≡ true → ports ≡ count_up (suc port - length ports) (length ports)
    room : length ports ≤ suc port

  pushed :
      (port : ℕ) (servers new : List Socket) (ports : List ℕ) (held held' : List Socket)
      → start ≤ port
      → port < stop
      → IsScan port servers ports held
      → PortClaimed can_listen independent port avoid avoid_ports held (some new) held'
      → IsPushed port (servers ++ new) (ports ++ port ∷ []) held'
  pushed port servers new ports held held' low high s (allowed, e, owns) = record {
    owns = λ n. omega (arith, owns n, s.owns n, times-append n servers new);
    exact =
        ap (λ l. l ++ new) s.exact
        ∙ ap (λ l. sockets_of ports ++ l) e
        ∙ sym (sockets_of-snoc ports port);
    good = All-append IsGood ports (port ∷ []) s.good ((allowed, low, high), tt);
    fresh = λ p h. ground (arith, count-snoc p ports port, s.fresh p);
    once = λ p. ground (arith, count-snoc p ports port, s.fresh p, s.once p);
    in_row = λ c.
        let k = length ports in
        let longer : length (ports ++ port ∷ []) ≡ suc k =
          omega (arith, length-append ports (port ∷ [])) in
        let last : port ≡ (port - k) + k = omega (arith, s.room) in
        let first : port - k ≡ suc port - suc k = omega arith in
        ap (λ l. l ++ port ∷ []) (s.in_row c)
        ∙ ap (λ p. count_up (port - k) k ++ p ∷ []) last
        ∙ count_up-snoc (port - k) k
        ∙ ap (λ f. count_up f (suc k)) first
        ∙ ap (λ m. count_up (suc port - m) m) (sym longer);
    room = omega (arith, length-append ports (port ∷ []), s.room);
  }

  go_on :
      (port : ℕ) (servers : List Socket) (ports : List ℕ) (held : List Socket)
      → length ports < wanted
      → IsPushed port servers ports held
      → IsScan (suc port) servers ports held
  go_on port servers ports held short s = record {
    owns = s.owns;
    exact = s.exact;
    good = s.good;
    fresh = s.fresh;
    once = s.once;
    in_row = s.in_row;
    room = s.room;
    short = short;
  }

  finished :
      (port : ℕ) (servers : List Socket) (ports : List ℕ) (held : List Socket)
      → length ports ≡ wanted
      → IsPushed port servers ports held
      → IsLocked (record { servers = servers; ports = ports }) held
  finished port servers ports held e s = record {
    enough = e;
    good = s.good;
    once = s.once;
    in_row = λ c. (suc port - length ports, s.in_row c ∙ ap (count_up (suc port - length ports)) e);
    exact = s.exact;
    owns = s.owns;
  }

  -- A port that is not claimed, in a search that need not restart.
  passed :
      (port : ℕ) (servers : List Socket) (ports : List ℕ) (held held' : List Socket)
      → consecutive && ltb 0 (length ports) ≡ false
      → IsScan port servers ports held
      → Owns [] held held'
      → IsScan (suc port) servers ports held'
  passed port servers ports held held' f s owns = record {
    owns = λ n. omega (arith, s.owns n, owns n);
    exact = s.exact;
    good = s.good;
    fresh = λ p h. s.fresh p (omega (arith, h));
    once = s.once;
    in_row = λ c.
        let empty : length ports ≡ 0 = ground (arith, f, c) in rw (nil_of_length ports empty) refl;
    room = omega (arith, s.room);
    short = s.short;
  }

  scan-Outcome :
      (left port : ℕ) (servers : List Socket) (ports : List ℕ) (held : List Socket)
      → start ≤ port
      → port + left ≡ stop
      → IsScan port servers ports held
      → let r =
          scan can_listen independent wanted consecutive avoid avoid_ports left port servers ports
            held in
        Outcome r.0 r.1
  unfolding scan
  scan-Outcome zero port servers ports held low e s = closed_all servers before held s.owns
  scan-Outcome (suc left) port servers ports held low e s =
      by_claim (claim_port can_listen independent port avoid avoid_ports held).0
        (claim_port can_listen independent port avoid avoid_ports held).1
        (claim_port-PortClaimed can_listen independent port avoid avoid_ports held)
        (λ servers' ports' l s'.
          scan-Outcome left (suc port) servers' ports' l (omega (arith, low)) (omega (arith, e)) s')
    where
      again : List Socket → List ℕ → List Socket → Option PortRangeLock × List Socket
      again servers' ports' l =
          scan can_listen independent wanted consecutive avoid avoid_ports left (suc port) servers'
            ports' l

      by_length :
          (new l : List Socket) (b : Bool)
          → (length (ports ++ port ∷ []) == wanted) ≡ b
          → IsPushed port (servers ++ new) (ports ++ port ∷ []) l
          → ((servers' : List Socket) (ports' : List ℕ) (m : List Socket)
              → IsScan (suc port) servers' ports' m
              → Outcome (again servers' ports' m).0 (again servers' ports' m).1)
          → let r =
              if b
              then (some (record { servers = servers ++ new; ports = ports ++ port ∷ [] }), l)
              else again (servers ++ new) (ports ++ port ∷ []) l in
            Outcome r.0 r.1
      by_length new l true f p later =
          finished port (servers ++ new) (ports ++ port ∷ []) l (ground (arith, f)) p
      by_length new l false f p later = later (servers ++ new) (ports ++ port ∷ []) l (
          go_on port (servers ++ new) (ports ++ port ∷ []) l
            (ground (arith, f, length-append ports (port ∷ []), s.short)) p)

      by_restart :
          (l : List Socket) (b : Bool)
          → consecutive && ltb 0 (length ports) ≡ b
          → Owns [] held l
          → ((servers' : List Socket) (ports' : List ℕ) (m : List Socket)
              → IsScan (suc port) servers' ports' m
              → Outcome (again servers' ports' m).0 (again servers' ports' m).1)
          → let r = if b then again [] [] (close_servers servers l) else again servers ports l in
            Outcome r.0 r.1
      by_restart l true f owns later = later [] [] (close_servers servers l) (
          empty-IsScan (suc port) (close_servers servers l) (omega (arith, s.short))
            (closed_all servers before l (λ n. omega (arith, owns n, s.owns n))))
      by_restart l false f owns later =
          later servers ports l (passed port servers ports held l f s owns)

      after_claim : Option (List Socket) → List Socket → Option PortRangeLock × List Socket
      after_claim o l = elim o [
        | some new ↦
            if length (ports ++ port ∷ []) == wanted
            then (some (record { servers = servers ++ new; ports = ports ++ port ∷ [] }), l)
            else again (servers ++ new) (ports ++ port ∷ []) l
        | none ↦
            if consecutive && ltb 0 (length ports)
            then again [] [] (close_servers servers l)
            else again servers ports l
      ]

      by_claim :
          (o : Option (List Socket)) (l : List Socket)
          → PortClaimed can_listen independent port avoid avoid_ports held o l
          → ((servers' : List Socket) (ports' : List ℕ) (m : List Socket)
              → IsScan (suc port) servers' ports' m
              → Outcome (again servers' ports' m).0 (again servers' ports' m).1)
          → Outcome (after_claim o l).0 (after_claim o l).1
      by_claim none l c later = by_restart l (consecutive && ltb 0 (length ports)) refl c later
      by_claim (some new) l c later =
          by_length new l (length (ports ++ port ∷ []) == wanted) refl
            (pushed port servers new ports held l low (omega (arith, e)) s c) later

range_end :
    (preferred : ℕ)
    → first_port preferred + (ceiling (first_port preferred) + 1 - first_port preferred)
      ≡ ceiling (first_port preferred) + 1
unfolding max_port ephemeral_port_start scanner_base
range_end preferred = ground arith

-- Whatever ports the system refuses: a search returns as many different ports as were asked for, in a
-- row where this is asked for, each of them from the first port up to the ceiling and in no set of
-- ports to avoid, and the sockets that are held then beside those of before are exactly the ones that
-- claim these ports; or it throws, and the sockets that are held are those of before.
pub find_available_port_range-Outcome :
    (can_listen : Socket → List Socket → Bool) (independent : Bool) (count preferred : ℕ)
    (consecutive : Bool) (avoid avoid_ports : List ℕ) (held : List Socket)
    → let start = first_port preferred in
      let r =
        find_available_port_range can_listen independent count preferred consecutive avoid
          avoid_ports held in
      Outcome can_listen independent avoid avoid_ports consecutive count start
        (ceiling start + 1)
        held
        r.0
        r.1
unfolding find_available_port_range
find_available_port_range-Outcome can_listen independent zero preferred consecutive avoid
      avoid_ports held =
    record {
      enough = refl;
      good = tt;
      once = λ p. omega arith;
      in_row = λ c. (0, refl);
      exact = refl;
      owns = λ n. omega arith;
    }
find_available_port_range-Outcome can_listen independent (suc more) preferred consecutive avoid
      avoid_ports held =
    let start = first_port preferred in
    let stop = ceiling start + 1 in
    scan-Outcome can_listen independent avoid avoid_ports consecutive (suc more) start stop held
      (stop - start) start [] [] held (omega arith) (range_end preferred)
      (empty-IsScan can_listen independent avoid avoid_ports consecutive (suc more) start stop held
        start held (omega arith) (λ n. omega arith))
