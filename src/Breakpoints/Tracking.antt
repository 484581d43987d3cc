-- ===== src/Breakpoints/Tracking.antt =====
-- The tables hold exactly the breakpoints that gdb has, after every request.
use mcu_debug.Prelude.{
  ℕ, ◌+◌, ◌≤◌, ◌==◌, if◌then◌else◌, Option, none, some, List, [], ◌∷◌, ◌++◌, ◌≡◌, refl, arith,
  count, length, ap, ◌∙◌, All,
}
use mcu_debug.Mi.Chars.{Text}
use mcu_debug.Breakpoints.Args.{
  Command, break_insert, dprintf_insert, break_watch, break_delete, exec_interrupt, exec_continue,
}
use mcu_debug.Breakpoints.World.{
  Table, ids, BkptInfo, Answer, done, failed, Manager, World, Result, ok, throws, M, and_then,
  modify, handle_msg, Error, deleting, ◌>>=◌, ◌>>◌, pure, Message, Error,
}
use mcu_debug.Breakpoints.Settle.{Breakpoint, settle}
use mcu_debug.Breakpoints.Requests.{post, require_done, delete_breakpoints, post_each, replace_all}
use mcu_debug.Breakpoints.Counts.{accepted, count_files, ids-settle}

-- The commands that make a breakpoint.
pub data IsInsert : Command → Type 0 where
  insert : (l : _) (args : _) → IsInsert (break_insert l args)
  log : (l : _) (args : _) → IsInsert (dprintf_insert l args)
  watch : (a : _) (t : Text) → IsInsert (break_watch a t)

-- What gdb documents of its breakpoints, the numbers of which `active` lists: an insertion that is
-- done adds the number that it answers with, which no other breakpoint has; a deletion that is done
-- removes the numbers given; a command that fails, and one that starts or stops the target, leaves
-- them.
pub record Documented {G : Type 0} (gdb_answers : Command → G → Answer × G) (active : G → List ℕ)
    : Type 0 where
  pub inserted :
      (c : Command) (g : G)
      → IsInsert c
      → (n : ℕ)
      → count n (active (gdb_answers c g).1)
        ≡ count n (accepted ((gdb_answers c g).0 ∷ [])) + count n (active g)
  pub fresh :
      (c : Command) (g : G) (info : BkptInfo)
      → IsInsert c
      → (gdb_answers c g).0 ≡ done (some info)
      → count info.number (active g) ≡ 0
  pub deleted :
      (list : List ℕ) (g : G) (info : Option BkptInfo)
      → (gdb_answers (break_delete list) g).0 ≡ done info
      → (n : ℕ)
      → count n (active (gdb_answers (break_delete list) g).1)
        ≡ (if count n list == 0 then count n (active g) else 0)
  pub kept :
      (list : List ℕ) (g : G) (text : Text)
      → (gdb_answers (break_delete list) g).0 ≡ failed text
      → (n : ℕ) → count n (active (gdb_answers (break_delete list) g).1) ≡ count n (active g)
  pub interrupted :
      (g : G) (n : ℕ) → count n (active (gdb_answers exec_interrupt g).1) ≡ count n (active g)
  pub continued :
      (g : G) (n : ℕ) → count n (active (gdb_answers exec_continue g).1) ≡ count n (active g)

-- How often a number stands in the tables of a manager.
abbrev pub total : ℕ → Manager → ℕ
total n m =
    count_files n m.file_breakpoints
    + count n (ids m.instr_breakpoints)
    + count n (ids m.function_breakpoints)
    + count n (ids m.data_breakpoints)

-- What a request does to one table: the numbers `others` of the other tables stay.
pub record Replaces {X : Type 0} (m : Manager) (old : List ℕ) (clear : Manager → Manager)
    (store : Table X → Manager → Manager) : Type 0 where
  pub others : ℕ → ℕ
  pub before : (n : ℕ) → total n m ≡ count n old + others n
  pub cleared : (n : ℕ) → total n (clear m) ≡ others n
  pub stored : (t : Table X) (n : ℕ) → total n (store t (clear m)) ≡ count n (ids t) + others n

module _ {G : Type 0} (gdb_answers : Command → G → Answer × G) (active : G → List ℕ)
    (gdb : Documented gdb_answers active) where
  pub insert_once :
      (c : Command) (g : G) (n : ℕ)
      → IsInsert c
      → count n (active g) ≤ 1
      → count n (accepted ((gdb_answers c g).0 ∷ [])) + count n (active g) ≤ 1
  insert_once c g n ins once = by_answer (gdb_answers c g).0 refl
    where
      by_answer :
          (a : Answer)
          → (gdb_answers c g).0 ≡ a
          → count n (accepted (a ∷ [])) + count n (active g) ≤ 1
      by_answer (done (some info)) e = ground (arith, gdb.fresh c g info ins e)
      by_answer (done none) e = omega (arith, once)
      by_answer (failed text) e = omega (arith, once)

  -- Each number stands in the tables as often as among gdb's breakpoints, which is once at most.
  pub record IsTracked (w : World G) : Type 0 where
    pub same : (n : ℕ) → total n w.manager ≡ count n (active w.gdb_state)
    pub once : (n : ℕ) → count n (active w.gdb_state) ≤ 1

  -- For a breakpoint with `P`, a command is made without touching gdb or the tables.
  pub record MakesInsert {X : Type 0} (P : X → Type 0) (make : X → M G Command) : Type 0 where
    pub command : (x : X) → P x → World G → Command
    pub shown : X → World G → List Message
    pub makes :
        (x : X) (p : P x) (w : World G)
        → make x w ≡ (ok (command x p w), record w { messages = shown x w })
    pub inserts : (x : X) (p : P x) (w : World G) → IsInsert (command x p w)

  pub record Posted (w : World G) (rounds : ℕ) (r : Result (List Answer) × World G) : Type 0 where
    pub answers : List Answer
    pub returned : r.0 ≡ ok answers
    pub one_each : length answers ≡ rounds
    pub tables_kept : r.1.manager ≡ w.manager
    pub gdb_gained :
        (n : ℕ)
        → count n (active r.1.gdb_state) ≡ count n (accepted answers) + count n (active w.gdb_state)
    pub gdb_once : (n : ℕ) → count n (active r.1.gdb_state) ≤ 1

  accepted_cons :
      (n : ℕ) (a : Answer) (answers : List Answer)
      → count n (accepted (a ∷ answers)) ≡ count n (accepted (a ∷ [])) + count n (accepted answers)
  accepted_cons n (done (some info)) answers = ground arith
  accepted_cons n (done none) answers = omega arith
  accepted_cons n (failed text) answers = omega arith

  pub post_each-Posted :
      {X : Type 0} (P : X → Type 0) (make : X → M G Command)
      → MakesInsert P make
      → (xs : List X) (w : World G) → All P xs
      → ((n : ℕ) → count n (active w.gdb_state) ≤ 1)
      → Posted w (length xs) (post_each gdb_answers make xs w)
  unfolding post_each post
  post_each-Posted P make making [] w all once = record {
    answers = [];
    returned = refl;
    one_each = refl;
    tables_kept = refl;
    gdb_gained = λ n. omega arith;
    gdb_once = once;
  }
  post_each-Posted P make making (x ∷ xs) w (p, all) once =
      let c = making.command x p w in
      let answer = gdb_answers c w.gdb_state in
      let ins = gdb.inserted c w.gdb_state (making.inserts x p w) in
      let w' : World G = record w {
        messages = making.shown x w;
        gdb_state = answer.1;
        sent = w.sent ++ c ∷ [];
      } in
      let rest =
        post_each-Posted P make making xs w' all (λ n.
          omega (arith, ins n, insert_once c w.gdb_state n (making.inserts x p w) (once n))) in
      rw (making.makes x p w, rest.returned)
        (record {
          answers = answer.0 ∷ rest.answers;
          returned = refl;
          one_each = omega (arith, rest.one_each);
          tables_kept = rest.tables_kept;
          gdb_gained =
              λ n. omega (arith, rest.gdb_gained n, ins n, accepted_cons n answer.0 rest.answers);
          gdb_once = rest.gdb_once;
        })

  -- What deleting does to the breakpoints of gdb, or that it throws and changes none.
  pub data Deleted (list : List ℕ) (w : World G) (r : Result (Unit {0}) × World G) : Type 0 where
    gone :
        r.0 ≡ ok tt
        → r.1.manager ≡ w.manager
        → ((n : ℕ)
            → count n (active r.1.gdb_state)
              ≡ (if count n list == 0 then count n (active w.gdb_state) else 0))
        → Deleted list w r
    refused :
        (e : Error)
        → r.0 ≡ throws e
        → r.1.manager ≡ w.manager
        → ((n : ℕ) → count n (active r.1.gdb_state) ≡ count n (active w.gdb_state))
        → Deleted list w r

  pub delete_breakpoints-Deleted :
      (list : List ℕ) (w : World G) → Deleted list w (delete_breakpoints gdb_answers list w)
  unfolding delete_breakpoints post require_done
  delete_breakpoints-Deleted [] w = gone refl refl (λ n. refl)
  delete_breakpoints-Deleted (id ∷ list) w = by_answer (gdb_answers command w.gdb_state).0 refl
    where
      command : Command
      command = break_delete (id ∷ list)

      after : World G
      after = record w {
        gdb_state = (gdb_answers command w.gdb_state).1;
        sent = w.sent ++ command ∷ [];
      }

      by_answer :
          (a : Answer)
          → (gdb_answers command w.gdb_state).0 ≡ a
          → Deleted (id ∷ list) w (require_done gdb_answers deleting a after)
      by_answer (done info) e = gone refl refl (gdb.deleted (id ∷ list) w.gdb_state info e)
      by_answer (failed text) e =
          refused (deleting (Error.gdb text)) refl refl (gdb.kept (id ∷ list) w.gdb_state text e)

  store-IsTracked :
      {X : Type 0} (keep : BkptInfo → X → X) (report : BkptInfo → X → Breakpoint) (m : Manager)
      (old : List ℕ) (clear : Manager → Manager) (store : Table X → Manager → Manager) (xs : List X)
      (w w' : World G) (answers : List Answer) (ms : List Message)
      (replaces : Replaces m old clear store)
      → length answers ≡ length xs
      → w'.manager ≡ clear m
      → ((n : ℕ)
          → count n (active w'.gdb_state)
            ≡ count n (accepted answers) + count n (active w.gdb_state))
      → ((n : ℕ) → count n (active w.gdb_state) ≡ replaces.others n)
      → ((n : ℕ) → count n (active w'.gdb_state) ≤ 1)
      → IsTracked (record w' {
        messages = ms;
        manager = store (settle keep report xs answers []).table w'.manager;
      })
  store-IsTracked keep report m old clear store xs w w' answers ms replaces one_each kept gained
        left once =
      let table =
        ids-settle keep report xs answers [] one_each (λ n. omega (arith, gained n, once n)) in
      let stored = (settle keep report xs answers []).table in
      record {
        same = λ n.
            ap (λ (k : Manager). total n (store stored k)) kept
            ∙ replaces.stored stored n
            ∙ omega (arith, ap (count n) table, gained n, left n);
        once = once;
      }

  -- A request that sends a command for each breakpoint returns, or throws where gdb does not delete;
  -- either way the tables are those of gdb again.
  pub replace_all-IsTracked :
      {X : Type 0} (P : X → Type 0) (make : X → M G Command) (keep : BkptInfo → X → X)
      (report : BkptInfo → X → Breakpoint) (old : List ℕ) (clear : Manager → Manager)
      (store : Table X → Manager → Manager) (xs : List X) (w : World G)
      → MakesInsert P make
      → All P xs
      → Replaces w.manager old clear store
      → IsTracked w
      → IsTracked (replace_all gdb_answers old clear make keep report store xs w).1
  unfolding replace_all
  replace_all-IsTracked {X} P make keep report old clear store xs w making all replaces tracked =
      by_delete (delete_breakpoints gdb_answers old w) (delete_breakpoints-Deleted old w)
    where
      others_left :
          (n : ℕ) {kept_active : ℕ}
          → total n w.manager ≡ count n (active w.gdb_state)
          → count n (active w.gdb_state) ≤ 1
          → kept_active ≡ (if count n old == 0 then count n (active w.gdb_state) else 0)
          → (kept_active ≡ replaces.others n) × (kept_active ≤ 1)
      others_left n same once less = ground (arith, replaces.before n)

      rest : Unit {0} → M G (List Breakpoint)
      rest _ = do
        modify clear
        answers ← post_each gdb_answers make xs
        handle_msg (settle keep report xs answers []).messages
        modify (store (settle keep report xs answers []).table)
        pure (settle keep report xs answers []).breakpoints

      by_delete :
          (r : Result (Unit {0}) × World G) → Deleted old w r → IsTracked (and_then r.0 rest r.1).1
      by_delete r (refused e thrown kept same) = rw thrown (record {
        same = λ n. rw kept (omega (arith, tracked.same n, same n));
        once = λ n. omega (arith, tracked.once n, same n);
      })
      by_delete r (gone returned kept less) =
          let w' : World G = record r.1 { manager = clear r.1.manager } in
          let left = λ (n : ℕ). others_left n (tracked.same n) (tracked.once n) (less n) in
          let posted = post_each-Posted P make making xs w' all (λ n. (left n).1) in
          rw (returned, posted.returned)
            (store-IsTracked keep report w.manager old clear store xs w'
              (post_each gdb_answers make xs w').1 posted.answers _ replaces posted.one_each
              (posted.tables_kept ∙ ap clear kept) posted.gdb_gained (λ n. (left n).0)
              posted.gdb_once)
