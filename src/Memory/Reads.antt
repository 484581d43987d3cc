-- ===== src/Memory/Reads.antt =====
-- What a read returns, with a gdb that answers as it documents.
use mcu_debug.Prelude.{
  ◌⊎◌, ltb→lt, leb→le, ℕ_discrete, Bool-cases, inl, inr, ℕ, zero, suc, ◌+◌, ◌-◌, ◌%◌, ◌≤◌, ◌<◌, min,
  true, false, ◌||◌, Option, none, some, List, [], ◌∷◌, ◌++◌, ◌==◌, ltb, leb, if◌then◌else◌, ◌≡◌,
  ◌≢◌, refl, sym, ap, ◌∙◌, arith, append-nil, append_assoc, pos, ◌+ℤ◌, negate, less, minus,
  ℤ_discrete, if_pos, add_suc_left,
}
use mcu_debug.Mi.Chars.{Text}
use mcu_debug.Memory.Numbers.{bytes_from_hex}
use mcu_debug.Memory.Requests.{
  Command, read_bytes, Block, Answer, done, failed, Result, ok, throws, Port, Checked, whole,
  partial, refused, number_or_zero, check_length, check_block, check_answer, all_settled, post,
  read_loop, read_memory_bytes,
}

-- The bytes of the memory from an address on.
abbrev pub bytes_at : (ℕ → ℕ) → ℕ → ℕ → List ℕ
bytes_at mem a zero = []
bytes_at mem a (suc n) = mem a ∷ bytes_at mem (suc a) n

-- An answer with one block, which has the `k` bytes from the address `a` on.
pub record Reads (mem : ℕ → ℕ) (a k : ℕ) (answer : Answer) : Type 0 where
  pub block : Block
  pub answered : answer ≡ done (block ∷ [])
  pub contents : bytes_from_hex block.contents ≡ bytes_at mem a k
  pub begin : number_or_zero block.begin ≡ some (pos a)
  pub offset : number_or_zero block.offset ≡ some (pos 0)
  pub end : number_or_zero block.end ≡ some (pos (a + k))

-- What gdb documents of a target that is stopped, whose memory can be read below `limit`: it answers a
-- read with the bytes that are there, as many as there are, and refuses one that starts at `limit` or
-- above.
pub record Documented {G : Type 0} (gdb_answers : Command → G → Answer × G) (mem : ℕ → ℕ)
    (limit : ℕ) : Type 0 where
  pub reads :
      (a n : ℕ) (g : G)
      → a < limit
      → Reads mem a (min n (limit - a)) (gdb_answers (read_bytes (pos a) n) g).0
  pub refuses :
      (a n : ℕ) (g : G)
      → limit ≤ a
      → (text : Text) × ((gdb_answers (read_bytes (pos a) n) g).0 ≡ failed text)

distance_back : (a k : ℕ) → pos (a + k) +ℤ negate (pos a) ≡ pos k
unfolding ◌+ℤ◌ negate minus
distance_back zero k = ap pos (omega arith)
distance_back (suc a) k = ground arith

no_offset : (a : ℕ) → pos a +ℤ pos 0 ≡ pos a
unfolding ◌+ℤ◌
no_offset a = ap pos (omega arith)

pub check_answer-Reads :
    (mem : ℕ → ℕ) (a k n : ℕ) (answer : Answer)
    → Reads mem a k answer
    → check_answer (pos a) n answer
      ≡ (if ltb k n then partial (bytes_at mem a k) else whole (bytes_at mem a k) (pos k))
unfolding check_answer check_block check_length less
check_answer-Reads mem a k n answer r =
    rw (r.answered, r.begin, r.offset, no_offset a, r.contents, r.end)
      (if_pos (ℤ_discrete (pos a) (pos a)) refl
          (check_length (bytes_at mem a k) n (pos a) r.block.end (some (pos (a + k)))) _
        ∙ rw (distance_back a k) refl)

bytes_at_add :
    (mem : ℕ → ℕ) (a n m : ℕ) → bytes_at mem a (n + m) ≡ bytes_at mem a n ++ bytes_at mem (a + n) m
bytes_at_add mem a zero m =
    let none_more : 0 + m ≡ m = omega arith in
    let same_start : a ≡ a + 0 = omega arith in
    ap (bytes_at mem a) none_more ∙ ap (λ i. bytes_at mem i m) same_start
bytes_at_add mem a (suc n) m = rw (add_suc_left n m) (
    ap (◌∷◌ (mem a)) (
      bytes_at_add mem (suc a) n m
      ∙ ap (λ i. bytes_at mem (suc a) n ++ bytes_at mem i m) (omega arith)))

abbrev pub to_option {ℓ} : {A : Type ℓ} → Result A → Option A
to_option (ok a) = some a
to_option (throws e) = none

module _ {G : Type 0} (gdb_answers : Command → G → Answer × G) (mem : ℕ → ℕ) (limit : ℕ)
    (gdb : Documented gdb_answers mem limit) where
  -- What is read of `n` bytes from the address `a` on.
  abbrev pub expected : ℕ → ℕ → Option (List ℕ)
  expected a n =
      if n == 0 || leb (a + n) limit
      then some (bytes_at mem a n)
      else if (limit - a) % 512 == 0
      then none
      else some (bytes_at mem a (limit - a))

  abbrev behind : List ℕ → Option (List ℕ) → Option (List ℕ)
  behind ret none = none
  behind ret (some bytes) = some (ret ++ bytes)

  expected_refused : (a m : ℕ) → limit ≤ a → expected a (suc m) ≡ none
  expected_refused a m h = ground arith

  expected_partial :
      (a m : ℕ)
      → limit - a < min (suc m) 512
      → a < limit
      → expected a (suc m) ≡ some (bytes_at mem a (limit - a))
  expected_partial a m h less = ground arith

  expected_all : (a n : ℕ) → a + n ≤ limit → expected a n ≡ some (bytes_at mem a n)
  expected_all a n h = ground arith

  expected_aligned : (a n : ℕ) → 0 < n → limit < a + n → (limit - a) % 512 ≡ 0 → expected a n ≡ none
  expected_aligned a n some_left h aligned = ground arith

  expected_cut :
      (a n : ℕ)
      → 0 < n
      → limit < a + n
      → (limit - a) % 512 ≢ 0
      → expected a n ≡ some (bytes_at mem a (limit - a))
  expected_cut a n some_left h unaligned = ground arith

  split_bytes :
      (a n size : ℕ) (ret : List ℕ)
      → size ≤ n
      → ret ++ bytes_at mem a n ≡ (ret ++ bytes_at mem a size) ++ bytes_at mem (a + size) (n - size)
  split_bytes a n size ret h =
      let parts : n ≡ size + (n - size) = omega (arith, h) in
      ap (λ i. ret ++ bytes_at mem a i) parts
      ∙ ap (λ (l : List ℕ). ret ++ l) (bytes_at_add mem a size (n - size))
      ∙ sym (append_assoc ret (bytes_at mem a size) (bytes_at mem (a + size) (n - size)))

  expected_whole :
      (a n size : ℕ) (ret : List ℕ)
      → size ≡ min n 512
      → 0 < n
      → a + size ≤ limit
      → behind ret (expected a n)
        ≡ behind (ret ++ bytes_at mem a size) (expected (a + size) (n - size))
  expected_whole a n size ret e some_left h = elim (Bool-cases (leb (a + n) limit)) [
    | inl all_there ↦
        let fits : a + n ≤ limit = leb→le (a + n) limit all_there in
        ap (behind ret) (expected_all a n fits)
        ∙ ap some (split_bytes a n size ret (omega (arith, e)))
        ∙ sym (
            ap (behind (ret ++ bytes_at mem a size))
              (expected_all (a + size) (n - size) (omega (arith, e, fits))))
    | inr cut ↦
        let over : limit < a + n = ground (arith, cut) in
        let same : (limit - (a + size)) % 512 ≡ (limit - a) % 512 = omega (arith, e, h, over) in
        let less_left : limit - (a + size) ≡ (limit - a) - size = omega arith in
        elim (ℕ_discrete ((limit - a) % 512) 0) [
          | yes aligned ↦
              ap (behind ret) (expected_aligned a n some_left over aligned)
              ∙ sym (
                  ap (behind (ret ++ bytes_at mem a size)) (
                    expected_aligned (a + size) (n - size) (omega (arith, e, h, over))
                      (omega (arith, e, h, over)) (same ∙ aligned)))
          | no unaligned ↦
              ap (behind ret) (expected_cut a n some_left over unaligned)
              ∙ ap some (split_bytes a (limit - a) size ret (omega (arith, h)))
              ∙ ap (λ i. some ((ret ++ bytes_at mem a size) ++ bytes_at mem (a + size) i))
                  (sym less_left)
              ∙ sym (
                  ap (behind (ret ++ bytes_at mem a size)) (
                    expected_cut (a + size) (n - size) (omega (arith, e, h, over))
                      (omega (arith, e, h, over)) (λ z. unaligned (sym same ∙ z))))
        ]
  ]

  read_loop-expected :
      (fuel a n : ℕ) (ret : List ℕ) (p : Port G)
      → n < fuel
      → to_option (read_loop gdb_answers none fuel (pos a) n ret [] p).0 ≡ behind ret (expected a n)
  unfolding read_loop all_settled check_answer ◌+ℤ◌
  read_loop-expected zero a n ret p h = absurd (omega (arith, h))
  read_loop-expected (suc fuel) a zero ret p h = ap some (sym (append-nil ret))
  read_loop-expected (suc fuel) a (suc m) ret p h =
      by_start (Bool-cases (ltb a limit)) (read_loop-expected fuel)
    where
      size : ℕ
      size = min (suc m) 512

      sent : Answer × Port G
      sent = post gdb_answers (read_bytes (pos a) size) p

      next : Checked → Result (List ℕ) × Port G
      next c = elim c [
        | refused e ↦ (throws e, sent.1)
        | partial chunk ↦ (ok (ret ++ chunk), sent.1)
        | whole chunk actual ↦
            read_loop gdb_answers none fuel (pos (a + size)) (suc m - size) (ret ++ chunk) [] sent.1
      ]

      k : ℕ
      k = min size (limit - a)

      by_size :
          (ltb k size ≡ true) ⊎ (ltb k size ≡ false)
          → a < limit
          → ((b n : ℕ) (rest : List ℕ) (q : Port G)
              → n < fuel
              → to_option (read_loop gdb_answers none fuel (pos b) n rest [] q).0
                ≡ behind rest (expected b n))
          → to_option
              (next (
                if ltb k size
                then partial (bytes_at mem a k)
                else whole (bytes_at mem a k) (pos k))).0
            ≡ behind ret (expected a (suc m))
      by_size (inl short) there later =
          let all_there : k ≡ limit - a = ground (arith, short) in
          rw (short, all_there, expected_partial a m (ground (arith, short)) there) refl
      by_size (inr full) there later =
          let wanted : k ≡ size = ground (arith, full) in
          let left : suc m - size < fuel = omega (arith, h) in
          rw full (
            ap (λ i. to_option (next (whole (bytes_at mem a i) (pos i))).0) wanted
            ∙ later (a + size) (suc m - size) (ret ++ bytes_at mem a size) sent.1 left
            ∙ sym (
                expected_whole a (suc m) size ret refl (omega arith)
                  (omega (arith, wanted, there))))

      by_start :
          (ltb a limit ≡ true) ⊎ (ltb a limit ≡ false)
          → ((b n : ℕ) (rest : List ℕ) (q : Port G)
              → n < fuel
              → to_option (read_loop gdb_answers none fuel (pos b) n rest [] q).0
                ≡ behind rest (expected b n))
          → to_option (next (check_answer (pos a) size sent.0)).0 ≡ behind ret (expected a (suc m))
      by_start (inl there) later =
          ap (λ c. to_option (next c).0)
            (check_answer-Reads mem a k size sent.0
              (gdb.reads a size p.gdb_state (ltb→lt a limit there)))
          ∙ by_size (Bool-cases (ltb k size)) (ltb→lt a limit there) later
      by_start (inr gone) later =
          let (text, e) = gdb.refuses a size p.gdb_state (ground (arith, gone)) in
          rw (e, expected_refused a m (ground (arith, gone))) refl

  -- Where gdb does as it documents, and its memory can be read below `limit`: a read returns the bytes
  -- asked for if all of them are below `limit`. Otherwise it returns those below `limit`, unless their
  -- number is a multiple of 512: then it throws, and what was read is lost.
  pub read_memory_bytes-expected :
      (a n : ℕ) (p : Port G)
      → to_option (read_memory_bytes gdb_answers (pos a) n none p).0 ≡ expected a n
  unfolding read_memory_bytes
  read_memory_bytes-expected a n p =
      read_loop-expected (suc n) a n [] p (omega arith) ∙ behind_nothing (expected a n)
    where
      behind_nothing : (o : Option (List ℕ)) → behind [] o ≡ o
      behind_nothing none = refl
      behind_nothing (some bytes) = refl
