-- ===== src/Lines/Reader.antt =====
-- A reader of lines, one character at a time, and that the text of LineSplitter, cut at its line ends
-- after the replacement, has the lines of that reader.
use mcu_debug.Prelude.{
  ℕ, Bool, true, false, ◌&&◌, ◌||◌, ◌==◌, if◌then◌else◌, List, [], ◌∷◌, ◌++◌, ◌≡◌, refl, sym, ap,
  ◌∙◌, map, All, arith, append_assoc, append-nil, Bool-cases, inl, inr,
}
use mcu_debug.Mi.Chars.{Text}
use mcu_debug.Lines.Cut.{cut_by}
use mcu_debug.Lines.Splitter.{normalize, is_break, whole_line, last_call}

-- The lines of a text that go out whole, each without its end: a line feed, a carriage return, or a
-- carriage return with the line feed behind it. `line` is the line so far, and `after_return` says
-- whether the character before was a carriage return. A last line without an end goes out if it is not
-- empty.
unfoldable pub read_lines : Bool → Text → Text → List (Text × Bool)
read_lines after_return [] [] = []
read_lines after_return (d ∷ line) [] = (d ∷ line, false) ∷ []
read_lines after_return line (c ∷ s) =
    let skipped = read_lines false line s in
    let ended = read_lines (c == b'\r') [] s in
    let longer = read_lines false (line ++ c ∷ []) s in
    if after_return && c == b'\n'
    then skipped
    else if c == b'\n' || c == b'\r'
    then (line, false) ∷ ended
    else longer

-- The lines that go out for a text, the last one without an end included.
abbrev pub calls_of : Text → List (Text × Bool)
calls_of text = let cut = cut_by is_break text in map whole_line cut.0 ++ last_call cut.1

abbrev HasNoBreak : Text → Type 0
HasNoBreak line = All (λ c. is_break c ≡ false) line

HasNoBreak-snoc :
    (line : Text) (c : ℕ) → HasNoBreak line → is_break c ≡ false → HasNoBreak (line ++ c ∷ [])
HasNoBreak-snoc [] c h e = (e, tt)
HasNoBreak-snoc (d ∷ line) c (hd, h) e = (hd, HasNoBreak-snoc line c h e)

cut_by-line : (line : Text) → HasNoBreak line → cut_by is_break line ≡ ([], line)
unfolding cut_by
cut_by-line [] h = refl
cut_by-line (c ∷ line) (hc, h) = rw (hc, cut_by-line line h) refl

cut_by-ended :
    (line : Text) (c : ℕ) (t : Text)
    → HasNoBreak line
    → is_break c ≡ true
    → cut_by is_break (line ++ c ∷ t) ≡ (line ∷ (cut_by is_break t).0, (cut_by is_break t).1)
unfolding cut_by
cut_by-ended [] c t h e = rw e refl
cut_by-ended (d ∷ line) c t (hd, h) e = rw (hd, cut_by-ended line c t h e) refl

calls_of-ended :
    (line : Text) (c : ℕ) (t : Text)
    → HasNoBreak line
    → is_break c ≡ true
    → calls_of (line ++ c ∷ t) ≡ (line, false) ∷ calls_of t
calls_of-ended line c t h e = rw (cut_by-ended line c t h e) refl

calls_of-line : (line : Text) → HasNoBreak line → calls_of line ≡ last_call line
calls_of-line line h = rw (cut_by-line line h) refl

read_lines-end : (a : Bool) (line : Text) → read_lines a line [] ≡ last_call line
unfolding read_lines
read_lines-end a [] = refl
read_lines-end a (c ∷ line) = refl

read_lines-break :
    (line : Text) (c : ℕ) (s : Text)
    → is_break c ≡ true
    → read_lines false line (c ∷ s) ≡ (line, false) ∷ read_lines (c == b'\r') [] s
unfolding read_lines is_break
read_lines-break [] c s e = rw e refl
read_lines-break (d ∷ line) c s e = rw e refl

read_lines-other :
    (line : Text) (c : ℕ) (s : Text)
    → is_break c ≡ false
    → read_lines false line (c ∷ s) ≡ read_lines false (line ++ c ∷ []) s
unfolding read_lines is_break
read_lines-other [] c s e = rw e refl
read_lines-other (d ∷ line) c s e = rw e refl

read_lines-feed : (s : Text) → read_lines true [] (b'\n' ∷ s) ≡ read_lines false [] s
unfolding read_lines
read_lines-feed s = refl

read_lines-no_feed :
    (a : Bool) (c : ℕ) (s : Text)
    → (a && c == b'\n') ≡ false
    → read_lines a [] (c ∷ s) ≡ read_lines false [] (c ∷ s)
unfolding read_lines
read_lines-no_feed a c s e = rw e refl

normalize-nil : normalize [] ≡ []
unfolding normalize
normalize-nil = refl

normalize-one : (c : ℕ) → normalize (c ∷ []) ≡ c ∷ []
unfolding normalize
normalize-one c = refl

normalize-pair :
    (c d : ℕ) (s : Text)
    → (c == b'\r' && d == b'\n') ≡ true
    → normalize (c ∷ d ∷ s) ≡ b'\n' ∷ normalize s
unfolding normalize
normalize-pair c d s e = rw e refl

normalize-single :
    (c d : ℕ) (s : Text)
    → (c == b'\r' && d == b'\n') ≡ false
    → normalize (c ∷ d ∷ s) ≡ c ∷ normalize (d ∷ s)
unfolding normalize
normalize-single c d s e = rw e refl

read_lines-pair :
    (a : Bool) (d : ℕ) (s : Text)
    → (a && d == b'\n') ≡ true
    → read_lines a [] (d ∷ s) ≡ read_lines false [] s
unfolding read_lines
read_lines-pair a d s e = rw e refl

pair-IsBreak : (c d : ℕ) → (c == b'\r' && d == b'\n') ≡ true → is_break c ≡ true
unfolding is_break
pair-IsBreak c d e = ground (arith, e)

feed-IsBreak : is_break b'\n' ≡ true
unfolding is_break
feed-IsBreak = refl

-- The lines of a text after the replacement are those that the reader finds in the text itself.
pub read_lines-calls_of :
    (line s : Text) → HasNoBreak line → read_lines false line s ≡ calls_of (line ++ normalize s)
read_lines-calls_of line [] h =
    read_lines-end false line
    ∙ sym (calls_of-line line h)
    ∙ ap calls_of (sym (append-nil line))
    ∙ ap (λ t. calls_of (line ++ t)) (sym normalize-nil)
read_lines-calls_of line (c ∷ []) h = elim (Bool-cases (is_break c)) [
  | inl e ↦
      read_lines-break line c [] e
      ∙ ap (◌∷◌ (line, false)) (read_lines-end (c == b'\r') [] ∙ sym (calls_of-line [] tt))
      ∙ sym (calls_of-ended line c [] h e)
      ∙ ap (λ t. calls_of (line ++ t)) (sym (normalize-one c))
  | inr e ↦
      read_lines-other line c [] e
      ∙ read_lines-end false (line ++ c ∷ [])
      ∙ sym (calls_of-line (line ++ c ∷ []) (HasNoBreak-snoc line c h e))
      ∙ ap (λ t. calls_of (line ++ t)) (sym (normalize-one c))
]
read_lines-calls_of line (c ∷ d ∷ s) h =
    by_pair (read_lines-calls_of [] s tt) (read_lines-calls_of [] (d ∷ s) tt)
      (λ e. read_lines-calls_of (line ++ c ∷ []) (d ∷ s) (HasNoBreak-snoc line c h e))
  where
    by_pair :
        read_lines false [] s ≡ calls_of (normalize s)
        → read_lines false [] (d ∷ s) ≡ calls_of (normalize (d ∷ s))
        → (is_break c ≡ false
            → read_lines false (line ++ c ∷ []) (d ∷ s)
              ≡ calls_of ((line ++ c ∷ []) ++ normalize (d ∷ s)))
        → read_lines false line (c ∷ d ∷ s) ≡ calls_of (line ++ normalize (c ∷ d ∷ s))
    by_pair next rest longer = elim (Bool-cases (c == b'\r' && d == b'\n')) [
      | inl pair ↦
          read_lines-break line c (d ∷ s) (pair-IsBreak c d pair)
          ∙ ap (◌∷◌ (line, false)) (read_lines-pair (c == b'\r') d s pair ∙ next)
          ∙ sym (calls_of-ended line b'\n' (normalize s) h feed-IsBreak)
          ∙ ap (λ t. calls_of (line ++ t)) (sym (normalize-pair c d s pair))
      | inr single ↦ elim (Bool-cases (is_break c)) [
        | inl e ↦
            read_lines-break line c (d ∷ s) e
            ∙ ap (◌∷◌ (line, false)) (read_lines-no_feed (c == b'\r') d s single ∙ rest)
            ∙ sym (calls_of-ended line c (normalize (d ∷ s)) h e)
            ∙ ap (λ t. calls_of (line ++ t)) (sym (normalize-single c d s single))
        | inr e ↦
            read_lines-other line c (d ∷ s) e
            ∙ longer e
            ∙ ap calls_of (append_assoc line (c ∷ []) (normalize (d ∷ s)))
            ∙ ap (λ t. calls_of (line ++ t)) (sym (normalize-single c d s single))
      ]
    ]
