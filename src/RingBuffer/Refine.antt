-- ===== src/RingBuffer/Refine.antt =====
-- A valid ring behaves as the queue that `snapshot` shows.
use native.Mathlib.Decide.{dec_lt}
use native.Mathlib.Nat.{mod-eq_of_lt, mod_self}
use mcu_debug.Prelude.{
  ℕ, zero, suc, ◌+◌, ◌-◌, ◌%◌, ◌≤◌, ◌<◌, ◌≡◌, refl, sym, ap, ◌∙◌, ◌↔◌, ◌⊎◌, inl, inr, true, false,
  List, [], ◌∷◌, ◌++◌, some, map, append-nil, append_assoc, arith, leb, Bool-cases, if◌then◌else◌,
  length, get_elem?, set, take, drop, length-append, length-set, length-take, length-drop,
  length-replicate, take_all, drop-append_le, take-set, drop-set, drop-drop, drop_all,
  nil_of_length,
}
use mcu_debug.RingBuffer.{
  Ring, create, is_empty, write, write_buffer, read, subarray, snapshot, clear,
}
use mcu_debug.RingBuffer.Queue

-- The indices lie in the buffer, and a full ring has them equal.
pub record IsValid (r : Ring) : Type 0 where
  pub storage : length r.buffer ≡ r.capacity
  pub head_in : r.head < r.capacity
  pub tail_in : r.tail < r.capacity
  pub full_meets : r.is_full ≡ true → r.tail ≡ r.head

pub create-IsValid : (n : ℕ) → 0 < n → IsValid (create n)
unfolding create
create-IsValid n h = record {
  storage = length-replicate n 0;
  head_in = h;
  tail_in = h;
  full_meets = λ e. cc;
}

-- One step round the ring, `i` being below `c`.
next_cases :
    (i c : ℕ) → i < c → ((i + 1) % c ≡ i + 1) × (i + 1 < c) ⊎ ((i + 1) % c ≡ 0) × (i + 1 ≡ c)
next_cases i c h = elim (dec_lt (i + 1) c) [
  | yes p ↦ inl (mod-eq_of_lt p, p)
  | no p ↦ let e : i + 1 ≡ c = omega arith in inr (rw (e, mod_self c), e)
]

pub write-IsValid : {r : Ring} (x : ℕ) → IsValid r → IsValid (write r x)
unfolding write
write-IsValid {r} x v = ground (
  arith,
  length-set r.buffer r.tail (x % 256),
  next_cases r.tail r.capacity v.tail_in,
  next_cases r.head r.capacity v.head_in,
)

pub read-IsValid : {r : Ring} → IsValid r → IsValid (read r).1
unfolding read
read-IsValid {r} v = ground (arith, next_cases r.head r.capacity v.head_in)

pub write_buffer-IsValid : {r : Ring} (xs : List ℕ) → IsValid r → IsValid (write_buffer r xs)
unfolding write_buffer
write_buffer-IsValid [] v = v
write_buffer-IsValid {r = r} (x ∷ xs) v =
    write_buffer-IsValid {r = write r x} xs (write-IsValid x v)

-- The part of the buffer from `i` up to the byte just written at `j`.
subarray-set :
    (b : List ℕ) (i j x : ℕ)
    → i ≤ j
    → j < length b
    → subarray (set b j x) i (suc j) ≡ subarray b i j ++ x ∷ []
subarray-set b i j x h k =
    rw (take-set b j x k) (drop-append_le i (take j b) (x ∷ []) (omega (arith, length-take j b)))

drop-set_end :
    (b : List ℕ) (i j x : ℕ)
    → i ≤ j
    → suc j ≡ length b
    → drop i (set b j x) ≡ subarray b i j ++ x ∷ []
drop-set_end b i j x h k =
    rw (← take_all (set b j x) (suc j) (omega (arith, length-set b j x)))
      (subarray-set b i j x h (omega arith))

-- A rotation of the buffer without its first byte.
drop_one : (b ys : List ℕ) (i : ℕ) → i < length b → drop 1 (drop i b ++ ys) ≡ drop (suc i) b ++ ys
drop_one [] ys i h = absurd (omega arith)
drop_one (x ∷ b) ys zero h = refl
drop_one (x ∷ b) ys (suc i) h = drop_one b ys i (omega arith)

drop-get_elem? :
    (b ys : List ℕ) (i : ℕ)
    → i < length b
    → (x : ℕ) × (get_elem? b i ≡ some x) × (drop i b ++ ys ≡ x ∷ (drop (suc i) b ++ ys))
drop-get_elem? [] ys i h = absurd (omega arith)
drop-get_elem? (x ∷ b) ys zero h = (x, refl, refl)
drop-get_elem? (x ∷ b) ys (suc i) h = drop-get_elem? b ys i (omega arith)

-- The number of bytes stored.
pub stored : Ring → ℕ
stored r =
    if r.is_full
    then r.capacity
    else if leb r.head r.tail
    then r.tail - r.head
    else r.capacity - r.head + r.tail

pub length-snapshot : {r : Ring} → IsValid r → length (snapshot r) ≡ stored r
unfolding snapshot stored
length-snapshot {r} v = ground (
  arith,
  length-append (drop r.head r.buffer) (take r.head r.buffer),
  length-append (drop r.head r.buffer) (take r.tail r.buffer),
  length-drop r.head r.buffer,
  length-take r.head r.buffer,
  length-take r.tail r.buffer,
  length-drop r.head (take r.tail r.buffer),
)

newest_small : (c : ℕ) (q : List ℕ) → length q ≤ c → Queue.newest c q ≡ q
newest_small c q h = let e : length q - c ≡ 0 = omega arith in rw e

newest_one :
    (c : ℕ) (q : List ℕ) (x : ℕ)
    → length q ≡ c
    → Queue.newest c (q ++ x ∷ []) ≡ drop 1 (q ++ x ∷ [])
newest_one c q x h =
    let e : length (q ++ x ∷ []) - c ≡ 1 = omega (arith, length-append q (x ∷ [])) in rw e

-- A full ring: the write replaces the oldest byte.
write_full :
    {r : Ring} (x : ℕ)
    → IsValid r
    → r.is_full ≡ true
    → snapshot (write r x) ≡ drop 1 (snapshot r ++ x % 256 ∷ [])
unfolding snapshot write
write_full {r} x v full = ground (
  arith,
  next_cases r.tail r.capacity v.tail_in,
  drop_one r.buffer (take r.head r.buffer ++ x % 256 ∷ []) r.head,
  drop_all r.buffer (suc r.head),
  take-set r.buffer r.tail (x % 256),
  take_all (set r.buffer r.tail (x % 256)) (suc r.tail),
  length-set r.buffer r.tail (x % 256),
  drop-set r.buffer r.tail (suc r.tail) (x % 256),
  append-nil (set r.buffer r.tail (x % 256)),
  append_assoc (drop r.head r.buffer) (take r.head r.buffer) (x % 256 ∷ []),
)

write_room :
    {r : Ring} (x : ℕ)
    → IsValid r
    → r.is_full ≡ false
    → snapshot (write r x) ≡ snapshot r ++ x % 256 ∷ []
unfolding snapshot write
write_room {r} x v room = ground (
  arith,
  next_cases r.tail r.capacity v.tail_in,
  take-set r.buffer r.tail (x % 256),
  subarray-set r.buffer r.head r.tail (x % 256),
  drop-set_end r.buffer r.head r.tail (x % 256),
  drop-set r.buffer r.tail r.head (x % 256),
  append-nil (subarray r.buffer r.head r.tail ++ x % 256 ∷ []),
  append_assoc (drop r.head r.buffer) (take r.tail r.buffer) (x % 256 ∷ []),
)

capacity-write : (r : Ring) (x : ℕ) → (write r x).capacity ≡ r.capacity
unfolding write
capacity-write r x = refl

-- `write` appends the byte to the queue and, where that is then longer than the capacity, drops
-- the oldest.
pub write_refines :
    {r : Ring} (x : ℕ) → IsValid r → snapshot (write r x) ≡ Queue.push r.capacity (snapshot r) x
unfolding Queue.push
write_refines {r} x v = elim (Bool-cases r.is_full) [
  | inl full ↦
      write_full x v full
      ∙ sym (
          newest_one r.capacity (snapshot r) (x % 256)
            (unfold stored in ground (arith, length-snapshot v)))
  | inr room ↦
      write_room x v room
      ∙ sym (
          newest_small r.capacity (snapshot r ++ x % 256 ∷ []) (
            unfold stored in
            ground (arith, length-snapshot v, length-append (snapshot r) (x % 256 ∷ []))))
]

-- The byte at the head of a rotation, and what stands behind it.
rotation_head :
    {r : Ring} (k : ℕ)
    → IsValid r
    → (x : ℕ) × (get_elem? r.buffer r.head ≡ some x)
      × (drop r.head r.buffer ++ take k r.buffer
          ≡ x ∷ (drop (suc r.head) r.buffer ++ take k r.buffer))
rotation_head {r} k v = drop-get_elem? r.buffer (take k r.buffer) r.head (omega arith)

drop-take_head :
    (b : List ℕ) (i j : ℕ)
    → i < j
    → j ≤ length b
    → (x : ℕ) × (get_elem? b i ≡ some x) × (subarray b i j ≡ x ∷ subarray b (suc i) j)
drop-take_head [] i j h k = absurd (omega arith)
drop-take_head (x ∷ b) i zero h k = absurd (omega arith)
drop-take_head (x ∷ b) zero (suc j) h k = (x, refl, refl)
drop-take_head (x ∷ b) (suc i) (suc j) h k = drop-take_head b i j (omega arith) (omega arith)

read_rotated :
    {r : Ring}
    → IsValid r
    → (r.is_full ≡ true) ⊎ ((r.is_full ≡ false) × (r.tail < r.head))
    → ((read r).0, snapshot (read r).1) ≡ Queue.pop (snapshot r)
unfolding read snapshot Queue.pop
read_rotated {r} v how =
    let (x, at_head, splits) = rotation_head r.tail v in
    ground (arith, next_cases r.head r.capacity v.head_in, drop_all r.buffer (suc r.head))

read_straight :
    {r : Ring}
    → IsValid r
    → r.is_full ≡ false
    → r.head < r.tail
    → ((read r).0, snapshot (read r).1) ≡ Queue.pop (snapshot r)
unfolding read snapshot Queue.pop
read_straight {r} v room lt =
    let (x, at_head, splits) = drop-take_head r.buffer r.head r.tail lt (omega arith) in
    ground (arith, next_cases r.head r.capacity v.head_in)

read_empty :
    {r : Ring}
    → IsValid r
    → r.is_full ≡ false
    → r.head ≡ r.tail
    → ((read r).0, snapshot (read r).1) ≡ Queue.pop (snapshot r)
unfolding read snapshot Queue.pop
read_empty {r} v room e =
    ground (arith, drop_all (take r.tail r.buffer) r.head, length-take r.tail r.buffer)

-- `read` removes the oldest byte of the queue, and gives `null` exactly for the empty one.
pub read_refines :
    {r : Ring} → IsValid r → ((read r).0, snapshot (read r).1) ≡ Queue.pop (snapshot r)
read_refines {r} v = elim (Bool-cases r.is_full) [
  | inl full ↦ read_rotated v (inl full)
  | inr room ↦ elim (lt_trichotomy r.head r.tail) [
    | inl lt ↦ read_straight v room lt
    | inr (inl e) ↦ read_empty v room e
    | inr (inr gt) ↦ read_rotated v (inr (room, gt))
  ]
]
  where
    lt_trichotomy : (a b : ℕ) → (a < b) ⊎ ((a ≡ b) ⊎ (b < a))
    lt_trichotomy a b = grind arith

-- The ring never holds more than its capacity.
pub length-snapshot-le : {r : Ring} → IsValid r → length (snapshot r) ≤ r.capacity
unfolding stored
length-snapshot-le {r} v = ground (arith, length-snapshot v)

-- To keep the newest bytes twice is to keep them once.
newest-append-newest :
    (c : ℕ) (q ys : List ℕ) → Queue.newest c (Queue.newest c q ++ ys) ≡ Queue.newest c (q ++ ys)
newest-append-newest c q ys = rw (← drop-append_le (length q - c) q ys (omega arith)) (
    drop-drop _ (length q - c) (q ++ ys)
    ∙ ap (λ k. drop k (q ++ ys))
        (omega (arith, length-drop (length q - c) (q ++ ys), length-append q ys)))

-- After a run of writes the ring holds the newest bytes of all that it was given, at most
-- `capacity` of them, in order.
pub write_buffer_refines :
    {r : Ring} (xs : List ℕ)
    → IsValid r
    → snapshot (write_buffer r xs) ≡ Queue.newest r.capacity (snapshot r ++ map (λ x. x % 256) xs)
unfolding write_buffer snapshot Queue.push
write_buffer_refines {r} [] v =
    rw append-nil (sym (newest_small r.capacity (snapshot r) (length-snapshot-le v)))
write_buffer_refines {r} (x ∷ xs) v =
    write_buffer_refines {r = write r x} xs (write-IsValid x v)
    ∙ rw (capacity-write r x, write_refines x v)
        (newest-append-newest r.capacity (snapshot r ++ x % 256 ∷ []) (map (λ x. x % 256) xs)
          ∙ ap (Queue.newest r.capacity)
              (append_assoc (snapshot r) (x % 256 ∷ []) (map (λ x. x % 256) xs)))

-- `isEmpty` holds exactly of a ring that shows no byte.
pub is_empty_iff : {r : Ring} → IsValid r → (is_empty r ≡ true) ↔ (snapshot r ≡ [])
unfolding is_empty
is_empty_iff {r} v = (
  λ e. nil_of_length (snapshot r) (unfold stored in ground (arith, length-snapshot v)),
  λ e. unfold stored in ground (arith, length-snapshot v, ap length e),
)

-- `clear` leaves a ring that is valid and holds nothing.
pub clear_refines : {r : Ring} → IsValid r → IsValid (clear r) × (snapshot (clear r) ≡ [])
unfolding clear snapshot
clear_refines {r} v = (ground arith, refl)

-- From `new BinaryRingBuffer(n)` on, the ring shows the last `n` of the bytes written.
pub snapshot-write_buffer-create :
    (n : ℕ) (xs : List ℕ)
    → 0 < n
    → snapshot (write_buffer (create n) xs) ≡ Queue.newest n (map (λ x. x % 256) xs)
unfolding create snapshot
snapshot-write_buffer-create n xs h = write_buffer_refines xs (create-IsValid n h)
