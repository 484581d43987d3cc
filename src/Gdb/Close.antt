-- ===== src/Gdb/Close.antt =====
-- What is lost when gdb's output ends.
use mcu_debug.Prelude.{
  ℕ, Bool, true, false, List, [], ◌∷◌, ◌≡◌, ◌≢◌, refl, ap, ◌∙◌, arith, if◌then◌else◌, All, ◌==◌,
}
use mcu_debug.Mi.Chars.{
  Text, trim, trim_end, eat_whitespace, span, is_whitespace, keep_unless_blank,
}
use mcu_debug.Lines.Cut.{cut_by, cut_before}
use mcu_debug.Gdb.State.{GdbInstance}
use mcu_debug.Gdb.Output.{
  cut_lines, handle_lines, handle_stdout_text, handle_stdout_close, last_line,
}

abbrev pub HasNoFeed : Text → Type 0
HasNoFeed s = All (λ c. c ≢ b'\n') s

cut_lines-none : (s : Text) → HasNoFeed s → cut_lines s ≡ ([], s)
unfolding cut_by
cut_lines-none [] h = refl
cut_lines-none (c ∷ s) (h, hs) =
    ap (cut_before (c == b'\n') c) (cut_lines-none s hs) ∙ ground (arith, h)

eat_whitespace-HasNoFeed : (s : Text) → HasNoFeed s → HasNoFeed (eat_whitespace s)
unfolding eat_whitespace span
eat_whitespace-HasNoFeed [] h = tt
eat_whitespace-HasNoFeed (c ∷ s) (h, hs) =
    by_blank (is_whitespace c) (eat_whitespace-HasNoFeed s hs)
  where
    by_blank :
        (b : Bool)
        → HasNoFeed (eat_whitespace s)
        → HasNoFeed
            (if◌then◌else◌ {A = Text × Text} b
              (c ∷ (span is_whitespace s).0, (span is_whitespace s).1)
              ([], c ∷ s)).1
    by_blank true rest = rest
    by_blank false rest = (h, hs)

keep_unless_blank-HasNoFeed :
    (c : ℕ) (t : Text) → c ≢ b'\n' → HasNoFeed t → HasNoFeed (keep_unless_blank c t)
keep_unless_blank-HasNoFeed c [] h ht = tt
keep_unless_blank-HasNoFeed c (d ∷ t) h ht = (h, ht)

trim_end-HasNoFeed : (s : Text) → HasNoFeed s → HasNoFeed (trim_end s)
unfolding trim_end
trim_end-HasNoFeed [] h = tt
trim_end-HasNoFeed (c ∷ s) (h, hs) = by_blank (is_whitespace c) (trim_end-HasNoFeed s hs)
  where
    by_blank :
        (b : Bool)
        → HasNoFeed (trim_end s)
        → HasNoFeed (if b then keep_unless_blank c (trim_end s) else c ∷ trim_end s)
    by_blank true rest = keep_unless_blank-HasNoFeed c (trim_end s) h rest
    by_blank false rest = (h, rest)

last_line-none :
    (c : ℕ) (s : Text) (g : GdbInstance)
    → HasNoFeed (c ∷ s)
    → last_line (c ∷ s) g ≡ record g { stdout_buf = trim (c ∷ s) }
unfolding handle_stdout_text handle_lines
last_line-none c s g h =
    let t = trim (c ∷ s) in
    let kept : HasNoFeed t =
      unfold trim in
      trim_end-HasNoFeed (eat_whitespace (c ∷ s)) (eat_whitespace-HasNoFeed (c ∷ s) h) in
    ap (λ (cut : List Text × Text). handle_lines cut.0 (record g { stdout_buf = cut.1 }))
      (cut_lines-none t kept)

abbrev forget_pending : GdbInstance → GdbInstance
forget_pending g = record g { books = record g.books { pending_cmds = [] } }

-- Where the buffer has a text without a line feed when gdb's output ends: that text is not handled as a
-- line but stays in the buffer without the blanks at its ends, nothing is learnt of the target, and the
-- pending commands are forgotten while no promise is settled.
pub handle_stdout_close_lem :
    (g : GdbInstance) (c : ℕ) (s : Text)
    → g.stdout_buf ≡ c ∷ s
    → HasNoFeed (c ∷ s)
    → handle_stdout_close g
      ≡ record g { stdout_buf = trim (c ∷ s); books = record g.books { pending_cmds = [] } }
unfolding handle_stdout_close
handle_stdout_close_lem g c s e h =
    ap (λ buf. forget_pending (last_line buf g)) e ∙ ap forget_pending (last_line-none c s g h)
