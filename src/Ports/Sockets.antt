-- ===== src/Ports/Sockets.antt =====
-- How often a socket is held, before and after it is closed.
use mcu_debug.Prelude.{ℕ, ◌+◌, ◌≤◌, List, [], ◌∷◌, ◌++◌, ◌==◌, if◌then◌else◌, ◌≡◌, arith}
use mcu_debug.Ports.Scan.{Socket, code_of, close_server, close_servers}

-- By the number of the socket.
abbrev pub times : ℕ → List Socket → ℕ
times n [] = 0
times n (s ∷ held) = if code_of s == n then 1 + times n held else times n held

pub times-append : (n : ℕ) (xs ys : List Socket) → times n (xs ++ ys) ≡ times n xs + times n ys
times-append n [] ys = omega arith
times-append n (x ∷ xs) ys = ground (arith, times-append n xs ys)

times-close_server :
    (n : ℕ) (server : Socket) (held : List Socket)
    → 1 ≤ times (code_of server) held
    → times n (server ∷ []) + times n (close_server server held) ≡ times n held
unfolding close_server
times-close_server n server [] h = absurd (omega (arith, h))
times-close_server n server (s ∷ held) h = ground (arith, times-close_server n server held)

-- Closing sockets that are held leaves the others.
pub times-close_servers :
    (servers held : List Socket)
    → ((n : ℕ) → times n servers ≤ times n held)
    → (n : ℕ) → times n servers + times n (close_servers servers held) ≡ times n held
unfolding close_servers
times-close_servers [] held h n = omega arith
times-close_servers (server ∷ servers) held h n =
    let closed = close_server server held in
    let parts = λ (m : ℕ). times-append m (server ∷ []) servers in
    let own : times (code_of server) (server ∷ []) ≡ 1 = ground arith in
    let one = λ (m : ℕ).
      times-close_server m server held
        (omega (arith, h (code_of server), parts (code_of server), own)) in
    omega (
      arith,
      parts n,
      one n,
      times-close_servers servers closed (λ m. omega (arith, h m, parts m, one m)) n,
    )
