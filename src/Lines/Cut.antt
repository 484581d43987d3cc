-- ===== src/Lines/Cut.antt =====
-- Cutting a text at the characters that a test accepts.
use mcu_debug.Prelude.{ℕ, Bool, true, false, List, [], ◌∷◌, ◌++◌, ◌≡◌, refl, ap, ◌∙◌, if◌then◌else◌}
use mcu_debug.Mi.Chars.{Text}

abbrev pub extend_line : ℕ → List Text → Text → List Text × Text
extend_line c [] rest = ([], c ∷ rest)
extend_line c (line ∷ lines) rest = ((c ∷ line) ∷ lines, rest)

abbrev pub cut_before : Bool → ℕ → List Text × Text → List Text × Text
cut_before is_end c cut = if is_end then ([] ∷ cut.0, cut.1) else extend_line c cut.0 cut.1

-- The lines, and what is left behind the last of them.
unfoldable pub cut_by : (ℕ → Bool) → Text → List Text × Text
cut_by test [] = ([], [])
cut_by test (c ∷ s) = cut_before (test c) c (cut_by test s)

cut_before-append :
    (test : ℕ → Bool) (c : ℕ) (is_end : Bool) (lines : List Text) (rest t : Text)
    → test c ≡ is_end
    → let cut = cut_by test (rest ++ t) in
      let before = cut_before is_end c (lines, rest) in
      cut_before is_end c (lines ++ cut.0, cut.1)
      ≡ (before.0 ++ (cut_by test (before.1 ++ t)).0, (cut_by test (before.1 ++ t)).1)
unfolding cut_by
cut_before-append test c true lines rest t e = refl
cut_before-append test c false [] rest t e = rw e refl
cut_before-append test c false (line ∷ lines) rest t e = refl

-- What is left of a text stands in front of the next.
pub cut_by-append :
    (test : ℕ → Bool) (s t : Text)
    → let cut = cut_by test s in
      let next = cut_by test (cut.1 ++ t) in cut_by test (s ++ t) ≡ (cut.0 ++ next.0, next.1)
unfolding cut_by
cut_by-append test [] t = refl
cut_by-append test (c ∷ s) t =
    ap (cut_before (test c) c) (cut_by-append test s t)
    ∙ cut_before-append test c (test c) (cut_by test s).0 (cut_by test s).1 t refl

-- What is left has no end of a line.
pub cut_by-rest :
    (test : ℕ → Bool) (s : Text) → cut_by test (cut_by test s).1 ≡ ([], (cut_by test s).1)
unfolding cut_by
cut_by-rest test [] = refl
cut_by-rest test (c ∷ s) =
    by_cut (test c) refl (cut_by test s).0 (cut_by test s).1 (cut_by-rest test s)
  where
    by_cut :
        (is_end : Bool)
        → test c ≡ is_end
        → (lines : List Text) (rest : Text) → cut_by test rest ≡ ([], rest)
        → let cut = cut_before is_end c (lines, rest) in cut_by test cut.1 ≡ ([], cut.1)
    by_cut true e lines rest kept = kept
    by_cut false e [] rest kept = rw (e, kept) refl
    by_cut false e (line ∷ lines) rest kept = kept
