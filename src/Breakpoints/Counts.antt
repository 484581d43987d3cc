-- ===== src/Breakpoints/Counts.antt =====
-- How often a number stands in the tables, before and after an entry changes.
use mcu_debug.Prelude.{
  ℕ, ◌+◌, ◌≤◌, none, some, List, [], ◌∷◌, ◌≡◌, refl, arith, count, length, ℕ_discrete, if_pos,
  if_neg, ◌++◌, ap, sym, append-nil, ◌∙◌, append_assoc,
}
use mcu_debug.Mi.Chars.{Text}
use mcu_debug.Breakpoints.World.{
  Table, ids, BkptInfo, Answer, done, failed, set_entry, get_entry, SourceBreakpoint,
}
use mcu_debug.Breakpoints.Settle.{
  Breakpoint, verified, unverified, settle, Text_discrete, table_or_empty,
}

-- The numbers that gdb gave.
abbrev pub accepted : List Answer → List ℕ
accepted [] = []
accepted (done (some info) ∷ answers) = info.number ∷ accepted answers
accepted (done none ∷ answers) = accepted answers
accepted (failed text ∷ answers) = accepted answers

-- The numbers in a response.
abbrev pub verified_ids : List Breakpoint → List ℕ
verified_ids [] = []
verified_ids (verified id line address ∷ bps) = id ∷ verified_ids bps
verified_ids (unverified e ∷ bps) = verified_ids bps

verified_ids_cons :
    (b : Breakpoint) (bps : List Breakpoint)
    → verified_ids (b ∷ bps) ≡ verified_ids (b ∷ []) ++ verified_ids bps
verified_ids_cons (verified id line address) bps = refl
verified_ids_cons (unverified e) bps = refl

ids-set_entry {ℓ} :
    {X : Type ℓ} (k : ℕ) (v : X) (t : Table X)
    → count k (ids t) ≡ 0
    → ids (set_entry ℕ_discrete k v t) ≡ ids t ++ k ∷ []
unfolding set_entry
ids-set_entry k v [] h = refl
ids-set_entry k v ((j, w) ∷ t) h = elim (ℕ_discrete j k) [
  | yes e ↦ absurd (ground (arith, e))
  | no ne ↦ rw (if_neg (ℕ_discrete j k) ne) (ap (◌∷◌ j) (ids-set_entry k v t (ground (arith, ne))))
]

count-append : (n : ℕ) (xs ys : List ℕ) → count n (xs ++ ys) ≡ count n xs + count n ys
count-append n [] ys = omega arith
count-append n (x ∷ xs) ys = ground (arith, count-append n xs ys)

module _ {X : Type 0} (keep : BkptInfo → X → X) (report : BkptInfo → X → Breakpoint) where
  -- New numbers go behind those of the table, in the order of the answers.
  pub ids-settle :
      (xs : List X) (answers : List Answer) (t : Table X)
      → length answers ≡ length xs
      → ((n : ℕ) → count n (ids t) + count n (accepted answers) ≤ 1)
      → ids (settle keep report xs answers t).table ≡ ids t ++ accepted answers
  unfolding settle
  ids-settle [] [] t e h = sym (append-nil (ids t))
  ids-settle [] (a ∷ answers) t e h = absurd (omega (arith, e))
  ids-settle (x ∷ xs) [] t e h = absurd (omega (arith, e))
  ids-settle (x ∷ xs) (done (some info) ∷ answers) t e h =
      let unused : count info.number (ids t) ≡ 0 = ground (arith, h info.number) in
      let entry = ids-set_entry info.number (keep info x) t unused in
      ids-settle xs answers (set_entry ℕ_discrete info.number (keep info x) t) (omega (arith, e))
        (λ n. rw entry (ground (arith, h n, count-append n (ids t) (info.number ∷ []))))
      ∙ ap (λ (l : List ℕ). l ++ accepted answers) entry
      ∙ append_assoc (ids t) (info.number ∷ []) (accepted answers)
  ids-settle (x ∷ xs) (done none ∷ answers) t e h = ids-settle xs answers t (omega (arith, e)) h
  ids-settle (x ∷ xs) (failed text ∷ answers) t e h = ids-settle xs answers t (omega (arith, e)) h

  -- One report for each breakpoint.
  pub length-settle :
      (xs : List X) (answers : List Answer) (t : Table X)
      → length answers ≡ length xs
      → length (settle keep report xs answers t).breakpoints ≡ length xs
  unfolding settle
  length-settle [] answers t e = refl
  length-settle (x ∷ xs) [] t e = absurd (omega (arith, e))
  length-settle (x ∷ xs) (done (some info) ∷ answers) t e = omega (
    arith,
    length-settle xs answers (set_entry ℕ_discrete info.number (keep info x) t) (omega (arith, e)),
  )
  length-settle (x ∷ xs) (done none ∷ answers) t e =
      omega (arith, length-settle xs answers t (omega (arith, e)))
  length-settle (x ∷ xs) (failed text ∷ answers) t e =
      omega (arith, length-settle xs answers t (omega (arith, e)))

  -- The response names the numbers that gdb gave, if a report does.
  pub verified_ids-settle :
      ((info : BkptInfo) (x : X) → verified_ids (report info x ∷ []) ≡ info.number ∷ [])
      → (xs : List X) (answers : List Answer) (t : Table X) → length answers ≡ length xs
      → verified_ids (settle keep report xs answers t).breakpoints ≡ accepted answers
  unfolding settle
  verified_ids-settle names [] [] t e = refl
  verified_ids-settle names [] (a ∷ answers) t e = absurd (omega (arith, e))
  verified_ids-settle names (x ∷ xs) [] t e = absurd (omega (arith, e))
  verified_ids-settle names (x ∷ xs) (done (some info) ∷ answers) t e =
      let t' = set_entry ℕ_discrete info.number (keep info x) t in
      verified_ids_cons (report info x) (settle keep report xs answers t').breakpoints
      ∙ ap (λ (l : List ℕ). l ++ verified_ids (settle keep report xs answers t').breakpoints)
          (names info x)
      ∙ ap (◌∷◌ info.number) (verified_ids-settle names xs answers t' (omega (arith, e)))
  verified_ids-settle names (x ∷ xs) (done none ∷ answers) t e =
      verified_ids-settle names xs answers t (omega (arith, e))
  verified_ids-settle names (x ∷ xs) (failed text ∷ answers) t e =
      verified_ids-settle names xs answers t (omega (arith, e))

-- The numbers in the tables of all files.
abbrev pub count_files : ℕ → List (Text × Table SourceBreakpoint) → ℕ
count_files n [] = 0
count_files n ((file, t) ∷ rest) = count n (ids t) + count_files n rest

-- An entry that is set takes the place of the one before.
pub count_files-set_entry :
    (n : ℕ) (file : Text) (t : Table SourceBreakpoint)
    (files : List (Text × Table SourceBreakpoint))
    → count_files n (set_entry Text_discrete file t files)
        + count n (ids (table_or_empty (get_entry Text_discrete file files)))
      ≡ count_files n files + count n (ids t)
unfolding set_entry get_entry
count_files-set_entry n file t [] = omega arith
count_files-set_entry n file t ((other, u) ∷ files) = elim (Text_discrete other file) [
  | yes e ↦
      rw (if_pos (Text_discrete other file) e, if_pos (Text_discrete other file) e) (omega arith)
  | no ne ↦
      rw (if_neg (Text_discrete other file) ne, if_neg (Text_discrete other file) ne)
        (omega (arith, count_files-set_entry n file t files))
]
