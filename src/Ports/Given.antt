-- ===== src/Ports/Given.antt =====
-- No port is given out twice.
use mcu_debug.Prelude.{
  ℕ, ◌+◌, Bool, true, false, ◌||◌, Option, none, some, List, [], ◌∷◌, ◌++◌, if◌then◌else◌, ◌≡◌,
  refl, arith, All, none-ne-some, some-injective, subst,
}
use mcu_debug.Ports.Scan.{Socket, has, PortRangeLock, first_port, ceiling}
use mcu_debug.Ports.Search.{IsGood, Outcome, find_available_port_range-Outcome}
use mcu_debug.Ports.Scanner.{
  TcpPortScanner, add_ports, emit_allocated, release_held_ports, with_lock, find_free_ports,
}

has-append : (p : ℕ) (xs ys : List ℕ) → has p (xs ++ ys) ≡ has p xs || has p ys
unfolding has
has-append p [] ys = refl
has-append p (x ∷ xs) ys = ground (arith, has-append p xs ys)

-- A port of the set stays in it.
has-add_ports_kept :
    (p : ℕ) (ports set : List ℕ) → has p set ≡ true → has p (add_ports ports set) ≡ true
unfolding add_ports
has-add_ports_kept p [] set h = h
has-add_ports_kept p (q ∷ ports) set h = ground (
  arith,
  has-add_ports_kept p ports set h,
  has-add_ports_kept p ports (set ++ q ∷ []) (rw (has-append p set (q ∷ []), h) refl),
)

has-add_ports : (ports set : List ℕ) → All (λ p. has p (add_ports ports set) ≡ true) ports
unfolding add_ports
has-add_ports [] set = tt
has-add_ports (q ∷ ports) set =
    by_flag (has q set) refl (has-add_ports ports set) (has-add_ports ports (set ++ q ∷ []))
  where
    added : has q (set ++ q ∷ []) ≡ true
    added = unfold has in ground (arith, has-append q set (q ∷ []))

    by_flag :
        (f : Bool)
        → has q set ≡ f
        → All (λ p. has p (add_ports ports set) ≡ true) ports
        → All (λ p. has p (add_ports ports (set ++ q ∷ [])) ≡ true) ports
        → All
            (λ p. has p (if f then add_ports ports set else add_ports ports (set ++ q ∷ [])) ≡ true)
            (q ∷ ports)
    by_flag true e here there = (has-add_ports_kept q ports set e, here)
    by_flag false e here there = (has-add_ports_kept q ports (set ++ q ∷ []) added, there)

apart :
    (p : ℕ) (ports set : List ℕ)
    → All (λ q. has q set ≡ true) ports
    → has p set ≡ false
    → has p ports ≡ false
unfolding has
apart p [] set h e = refl
apart p (q ∷ ports) set (h, hs) e = ground (arith, apart p ports set hs e, h, e)

module _ (can_listen : Socket → List Socket → Bool) (independent : Bool) where
  -- A call that returns ports adds them to the set to avoid.
  find_free_ports-avoid :
      (n start : ℕ) (consecutive : Bool) (avoid : List ℕ) (s : TcpPortScanner) (ports : List ℕ)
      → (find_free_ports can_listen independent n start consecutive avoid s).0 ≡ some ports
      → All
          (λ p.
            has p (find_free_ports can_listen independent n start consecutive avoid s).1.avoid_ports
            ≡ true)
          ports
  unfolding find_free_ports
  find_free_ports-avoid n start consecutive avoid s ports e = by_lock _ _ e
    where
      announced :
          (given : List ℕ) (t : TcpPortScanner)
          → All (λ p. has p (emit_allocated given t).avoid_ports ≡ true) given
      announced [] t = tt
      announced (p ∷ ps) t = unfold emit_allocated in has-add_ports (p ∷ ps) t.avoid_ports

      by_lock :
          (lock : Option PortRangeLock) (held : List Socket)
          → (with_lock can_listen independent lock held s).0 ≡ some ports
          → All
              (λ p. has p (with_lock can_listen independent lock held s).1.avoid_ports ≡ true)
              ports
      by_lock none held f = absurd (none-ne-some ports f)
      by_lock (some lock) held f =
          let t = record s { held_locks = s.held_locks ++ lock ∷ []; held = held } in
          let same = some-injective lock.ports ports f in
          subst (λ given. All (λ p. has p (emit_allocated lock.ports t).avoid_ports ≡ true) given)
            same (announced lock.ports t)

  find_free_ports-apart :
      (n start : ℕ) (consecutive : Bool) (avoid : List ℕ) (s : TcpPortScanner) (ports : List ℕ)
      → (find_free_ports can_listen independent n start consecutive avoid s).0 ≡ some ports
      → All (λ p. has p s.avoid_ports ≡ false) ports
  unfolding find_free_ports
  find_free_ports-apart n start consecutive avoid s ports e =
      by_lock _ _
        (find_available_port_range-Outcome can_listen independent n start consecutive avoid
          s.avoid_ports s.held)
        e
    where
      first : ℕ
      first = first_port start

      good_apart :
          (given : List ℕ)
          → All
              (IsGood can_listen independent avoid s.avoid_ports consecutive n first
                (ceiling first + 1)
                s.held)
              given
          → All (λ p. has p s.avoid_ports ≡ false) given
      good_apart [] h = tt
      good_apart (p ∷ ps) ((allowed, low, high), hs) = (allowed.1, good_apart ps hs)

      by_lock :
          (lock : Option PortRangeLock) (held : List Socket)
          → Outcome can_listen independent avoid s.avoid_ports consecutive n first
              (ceiling first + 1)
              s.held
              lock
              held
          → (with_lock can_listen independent lock held s).0 ≡ some ports
          → All (λ p. has p s.avoid_ports ≡ false) ports
      by_lock none held out f = absurd (none-ne-some ports f)
      by_lock (some lock) held out f =
          subst (λ given. All (λ p. has p s.avoid_ports ≡ false) given)
            (some-injective lock.ports ports f) (good_apart lock.ports out.good)

  -- Two searches that return ports, between which the reservations are released, return no port in
  -- common, whatever they are asked for.
  pub find_free_ports-find_free_ports :
      (n m start from : ℕ) (consecutive in_row : Bool) (avoid shun : List ℕ) (s : TcpPortScanner)
      (ports later : List ℕ)
      → (find_free_ports can_listen independent n start consecutive avoid s).0 ≡ some ports
      → let s' =
          release_held_ports
            (find_free_ports can_listen independent n start consecutive avoid s).1 in
        (find_free_ports can_listen independent m from in_row shun s').0 ≡ some later
        → All (λ p. has p ports ≡ false) later
  unfolding release_held_ports
  find_free_ports-find_free_ports n m start from consecutive in_row shun_first shun s ports later e
        f =
      let s1 = (find_free_ports can_listen independent n start consecutive shun_first s).1 in
      let taken = find_free_ports-avoid n start consecutive shun_first s ports e in
      each s1.avoid_ports later
        (find_free_ports-apart m from in_row shun (release_held_ports s1) later f) taken
    where
      each :
          (set : List ℕ) (given : List ℕ)
          → All (λ p. has p set ≡ false) given
          → All (λ q. has q set ≡ true) ports
          → All (λ p. has p ports ≡ false) given
      each set [] h taken = tt
      each set (p ∷ ps) (h, hs) taken = (apart p ports set taken h, each set ps hs taken)
