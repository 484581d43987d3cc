-- ===== src/Gdb/Tally.antt =====
-- How often callers and tokens stand in the parts of the state.
use mcu_debug.Prelude.{
  ℕ, ◌+◌, ◌≤◌, Bool, true, false, ◌==◌, if◌then◌else◌, Option, none, some, List, [], ◌∷◌, ◌++◌, ◌≡◌,
  refl, arith,
}
use mcu_debug.Gdb.State.{Outcome, Owner, caller, loop, Pending, Item}
use mcu_debug.Gdb.Books.{find_pending, delete_pending, set_pending}

abbrev pub one_if : ℕ → ℕ → ℕ
one_if n m = if m == n then 1 else 0

abbrev pub is_some {ℓ} : {A : Type ℓ} → Option A → ℕ
is_some none = 0
is_some (some a) = 1

abbrev pub flag : Bool → ℕ
flag false = 0
flag true = 1

abbrev pub of_loop : Owner → ℕ
of_loop (caller id) = 0
of_loop loop = 1

abbrev pub of_caller : ℕ → Owner → ℕ
of_caller id (caller j) = one_if id j
of_caller id loop = 0

abbrev pub sum_by : (Pending → ℕ) → List Pending → ℕ
sum_by f [] = 0
sum_by f (p ∷ ps) = f p + sum_by f ps

abbrev pub count_token : ℕ → List Pending → ℕ
count_token seq ps = sum_by (λ p. one_if seq p.seq) ps

abbrev pub count_loop : List Pending → ℕ
count_loop ps = sum_by (λ p. of_loop p.owner) ps

abbrev pub count_pending : ℕ → List Pending → ℕ
count_pending id ps = sum_by (λ p. of_caller id p.owner) ps

abbrev pub count_queue : ℕ → List Item → ℕ
count_queue id [] = 0
count_queue id (item ∷ items) = one_if id item.id + count_queue id items

abbrev pub count_awaiting : ℕ → Option ℕ → ℕ
count_awaiting id none = 0
count_awaiting id (some j) = one_if id j

abbrev pub count_answers : ℕ → List (ℕ × Outcome) → ℕ
count_answers id [] = 0
count_answers id ((j, outcome) ∷ answers) = one_if id j + count_answers id answers

pub is_some_le {ℓ} : {A : Type ℓ} (o : Option A) → is_some o ≤ 1
is_some_le none = omega arith
is_some_le (some a) = omega arith

pub sum_by-set_pending :
    (f : Pending → ℕ) (new : Pending) (ps : List Pending)
    → count_token new.seq ps ≡ 0
    → sum_by f (set_pending new ps) ≡ f new + sum_by f ps
unfolding set_pending
sum_by-set_pending f new [] h = refl
sum_by-set_pending f new (p ∷ ps) h = ground (arith, sum_by-set_pending f new ps)

pub sum_by-delete_pending :
    (f : Pending → ℕ) (seq : ℕ) (ps : List Pending) (p : Pending)
    → find_pending seq ps ≡ some p
    → sum_by f ps ≡ f p + sum_by f (delete_pending seq ps)
unfolding find_pending delete_pending
sum_by-delete_pending f seq [] p e = ground (arith, e)
sum_by-delete_pending f seq (q ∷ ps) p e = ground (arith, e, sum_by-delete_pending f seq ps p)

pub count_token-delete_pending :
    (seq t : ℕ) (ps : List Pending) → count_token t (delete_pending seq ps) ≤ count_token t ps
unfolding delete_pending
count_token-delete_pending seq t [] = omega arith
count_token-delete_pending seq t (q ∷ ps) = ground (arith, count_token-delete_pending seq t ps)

-- Taking back what was just entered.
pub delete_pending-set_pending :
    (new : Pending) (ps : List Pending)
    → count_token new.seq ps ≡ 0
    → delete_pending new.seq (set_pending new ps) ≡ ps
unfolding delete_pending set_pending
delete_pending-set_pending new [] h = ground arith
delete_pending-set_pending new (p ∷ ps) h = ground (arith, delete_pending-set_pending new ps)

pub count_queue-append :
    (id : ℕ) (items : List Item) (item : Item)
    → count_queue id (items ++ item ∷ []) ≡ one_if id item.id + count_queue id items
count_queue-append id [] item = omega arith
count_queue-append id (i ∷ items) item = omega (arith, count_queue-append id items item)
