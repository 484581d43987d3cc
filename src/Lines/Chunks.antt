-- ===== src/Lines/Chunks.antt =====
-- The lines do not depend on how a stream is cut into chunks, unless a chunk ends between the two
-- characters of a line end.
use mcu_debug.Prelude.{
  Bool, false, ◌==◌, List, [], ◌∷◌, ◌++◌, ◌≡◌, ◌≢◌, refl, sym, ap, ◌∙◌, map, All, arith,
  append_assoc, append-nil,
}
use mcu_debug.Mi.Chars.{Text}
use mcu_debug.Lines.Cut.{cut_by, cut_by-append, cut_by-rest}
use mcu_debug.Lines.Reader.{read_lines, calls_of, read_lines-calls_of}
use mcu_debug.Lines.Splitter.{
  normalize, is_break, LineSplitter, new_splitter, whole_line, write, last_call, end_splitter,
  LineBuffer, new_buffer, strip_return, put_line, filled_lines, push, flush,
}

abbrev pub joined : List Text → Text
joined [] = []
joined (chunk ∷ chunks) = chunk ++ joined chunks

-- The last character is no carriage return.
abbrev pub IsWhole : Text → Type 0
IsWhole [] = Unit {0}
IsWhole (c ∷ []) = c ≢ b'\r'
IsWhole (c ∷ d ∷ s) = IsWhole (d ∷ s)

normalize-append : (s t : Text) → IsWhole s → normalize (s ++ t) ≡ normalize s ++ normalize t
unfolding normalize
normalize-append [] t h = refl
normalize-append (c ∷ []) [] h = refl
normalize-append (c ∷ []) (d ∷ t) h = ground (arith, h)
normalize-append (c ∷ d ∷ []) t h = ground (arith, normalize-append (d ∷ []) t h)
normalize-append (c ∷ d ∷ e ∷ s) t h =
    ground (arith, normalize-append (e ∷ s) t h, normalize-append (d ∷ e ∷ s) t h)

abbrev pub write_all : List Text → LineSplitter → LineSplitter
write_all [] s = s
write_all (chunk ∷ chunks) s = write_all chunks (write chunk s)

abbrev normal : List Text → Text
normal [] = []
normal (chunk ∷ chunks) = normalize chunk ++ normal chunks

map-append {ℓ κ} :
    {A : Type ℓ} {B : Type κ} (f : A → B) (xs ys : List A) → map f (xs ++ ys) ≡ map f xs ++ map f ys
map-append f [] ys = refl
map-append f (x ∷ xs) ys = ap (◌∷◌ (f x)) (map-append f xs ys)

calls_of-append :
    (s t : Text)
    → calls_of (s ++ t)
      ≡ map whole_line (cut_by is_break s).0 ++ calls_of ((cut_by is_break s).1 ++ t)
calls_of-append s t =
    let cut = cut_by is_break s in
    let next = cut_by is_break (cut.1 ++ t) in
    ap (λ (c : List Text × Text). map whole_line c.0 ++ last_call c.1) (cut_by-append is_break s t)
    ∙ ap (λ l. l ++ last_call next.1) (map-append whole_line cut.0 next.0)
    ∙ append_assoc (map whole_line cut.0) (map whole_line next.0) (last_call next.1)

write_all-calls :
    (chunks : List Text) (s : LineSplitter)
    → cut_by is_break s.buffer ≡ ([], s.buffer)
    → (end_splitter (write_all chunks s)).calls ≡ s.calls ++ calls_of (s.buffer ++ normal chunks)
unfolding write end_splitter
write_all-calls [] s e = rw (append-nil s.buffer, e) refl
write_all-calls (chunk ∷ chunks) s e =
    let text = s.buffer ++ normalize chunk in
    let cut = cut_by is_break text in
    write_all-calls chunks (write chunk s) (cut_by-rest is_break text)
    ∙ append_assoc s.calls (map whole_line cut.0) (calls_of (cut.1 ++ normal chunks))
    ∙ ap (λ l. s.calls ++ l) (sym (calls_of-append text (normal chunks)))
    ∙ ap (λ t. s.calls ++ calls_of t) (append_assoc s.buffer (normalize chunk) (normal chunks))

normal-joined :
    (chunks : List Text) → All IsWhole chunks → normal chunks ≡ normalize (joined chunks)
normal-joined [] h = unfold normalize in refl
normal-joined (chunk ∷ chunks) (h, hs) =
    ap (λ t. normalize chunk ++ t) (normal-joined chunks hs)
    ∙ sym (normalize-append chunk (joined chunks) h)

-- Where no chunk ends in a carriage return and the timer does not fire: the lines called back for the
-- chunks of a text up to its end are those that a reader of one character at a time finds in the text as
-- a whole, for which a line feed, a carriage return, and a carriage return with the line feed behind it
-- end a line each, and a last line without an end counts if it is not empty.
pub write_all-joined :
    (chunks : List Text) (has_timer : Bool)
    → All IsWhole chunks
    → (end_splitter (write_all chunks (new_splitter has_timer))).calls
      ≡ read_lines false [] (joined chunks)
unfolding new_splitter
write_all-joined chunks has_timer h =
    write_all-calls chunks (new_splitter has_timer) (unfold cut_by in refl)
    ∙ ap calls_of (normal-joined chunks h)
    ∙ sym (read_lines-calls_of [] (joined chunks) tt)

abbrev pub push_all : List Text → LineBuffer → LineBuffer
push_all [] b = b
push_all (chunk ∷ chunks) b = push_all chunks (push chunk b)

-- The lines of a text without those that are empty; the last one, which has no end, is not stripped.
abbrev pub lines_of : Text → List Text
lines_of text = let cut = cut_by (λ c. c == b'\n') text in filled_lines cut.0 ++ put_line cut.1 []

put_line-append :
    (line : Text) (xs ys : List Text) → put_line line xs ++ ys ≡ put_line line (xs ++ ys)
put_line-append [] xs ys = refl
put_line-append (c ∷ s) xs ys = refl

filled_lines-append :
    (xs ys : List Text) → filled_lines (xs ++ ys) ≡ filled_lines xs ++ filled_lines ys
unfolding filled_lines
filled_lines-append [] ys = refl
filled_lines-append (x ∷ xs) ys =
    ap (put_line (strip_return x)) (filled_lines-append xs ys)
    ∙ sym (put_line-append (strip_return x) (filled_lines xs) (filled_lines ys))

lines_of-append :
    (s t : Text)
    → let cut = cut_by (λ c. c == b'\n') s in
      lines_of (s ++ t) ≡ filled_lines cut.0 ++ lines_of (cut.1 ++ t)
lines_of-append s t =
    let cut = cut_by (λ c. c == b'\n') s in
    let next = cut_by (λ c. c == b'\n') (cut.1 ++ t) in
    ap (λ (c : List Text × Text). filled_lines c.0 ++ put_line c.1 [])
      (cut_by-append (λ c. c == b'\n') s t)
    ∙ ap (λ l. l ++ put_line next.1 []) (filled_lines-append cut.0 next.0)
    ∙ append_assoc (filled_lines cut.0) (filled_lines next.0) (put_line next.1 [])

push_all-emitted :
    (chunks : List Text) (b : LineBuffer)
    → cut_by (λ c. c == b'\n') b.buf ≡ ([], b.buf)
    → (flush (push_all chunks b)).emitted ≡ b.emitted ++ lines_of (b.buf ++ joined chunks)
unfolding push flush filled_lines
push_all-emitted [] b e = rw (append-nil b.buf, e) refl
push_all-emitted (chunk ∷ chunks) b e =
    let text = b.buf ++ chunk in
    let cut = cut_by (λ c. c == b'\n') text in
    push_all-emitted chunks (push chunk b) (cut_by-rest (λ c. c == b'\n') text)
    ∙ append_assoc b.emitted (filled_lines cut.0) (lines_of (cut.1 ++ joined chunks))
    ∙ ap (λ l. b.emitted ++ l) (sym (lines_of-append text (joined chunks)))
    ∙ ap (λ t. b.emitted ++ lines_of t) (append_assoc b.buf chunk (joined chunks))

-- Where the timer does not fire, the lines that a buffer emits for the chunks of a text and a flush are
-- the lines of the text as a whole that are not empty.
pub push_all-joined :
    (chunks : List Text) → (flush (push_all chunks new_buffer)).emitted ≡ lines_of (joined chunks)
unfolding new_buffer
push_all-joined chunks = push_all-emitted chunks new_buffer (unfold cut_by in refl)
