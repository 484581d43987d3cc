-- ===== src/Lines/Splitter.antt =====
-- LineSplitter, which calls back with each line, and LineBuffer, which emits those that are not empty.
use mcu_debug.Prelude.{
  ℕ, Bool, true, false, ◌&&◌, ◌||◌, List, [], ◌∷◌, ◌++◌, ◌==◌, if◌then◌else◌, map,
}
use mcu_debug.Mi.Chars.{Text}
use mcu_debug.Lines.Cut.{cut_by}

-- `replace(/\r\n/g, "\n")`.
unfoldable pub normalize : Text → Text
normalize [] = []
normalize (c ∷ []) = c ∷ []
normalize (c ∷ d ∷ s) =
    let joined = normalize s in
    let kept = normalize (d ∷ s) in if c == b'\r' && d == b'\n' then b'\n' ∷ joined else c ∷ kept

unfoldable pub is_break : ℕ → Bool
is_break c = c == b'\n' || c == b'\r'

-- The lines called back, each with whether it is partial, from the first to the last.
pub record LineSplitter : Type 0 where
  pub buffer : Text
  pub timer : Bool
  -- whether `flushTimerMs` is above 0
  pub has_timer : Bool
  pub calls : List (Text × Bool)

unfoldable pub new_splitter : Bool → LineSplitter
new_splitter has_timer = record { buffer = []; timer = false; has_timer = has_timer; calls = [] }

abbrev pub whole_line : Text → Text × Bool
whole_line line = (line, false)

abbrev pub is_filled : Text → Bool
is_filled [] = false
is_filled (c ∷ s) = true

unfoldable pub write : Text → LineSplitter → LineSplitter
write data_text s =
    let cut = cut_by is_break (s.buffer ++ normalize data_text) in
    record s {
      buffer = cut.1;
      timer = is_filled cut.1 && s.has_timer;
      calls = s.calls ++ map whole_line cut.0;
    }

-- The timer fires: the line so far, which stays in the buffer.
unfoldable pub flush_timer : LineSplitter → LineSplitter
flush_timer s =
    if s.timer
    then record s {
      timer = false;
      calls = if is_filled s.buffer then s.calls ++ (s.buffer, true) ∷ [] else s.calls;
    }
    else s

abbrev pub last_call : Text → List (Text × Bool)
last_call [] = []
last_call (c ∷ s) = whole_line (c ∷ s) ∷ []

unfoldable pub end_splitter : LineSplitter → LineSplitter
end_splitter s = record s { buffer = []; timer = false; calls = s.calls ++ last_call s.buffer }

-- LineBuffer, with the lines emitted from the first to the last.
pub record LineBuffer : Type 0 where
  pub buf : Text
  pub timer : Bool
  pub emitted : List Text

unfoldable pub new_buffer : LineBuffer
new_buffer = record { buf = []; timer = false; emitted = [] }

-- `replace(/\r$/, "")`.
unfoldable pub strip_return : Text → Text
strip_return [] = []
strip_return (c ∷ []) = if c == b'\r' then [] else c ∷ []
strip_return (c ∷ d ∷ s) = c ∷ strip_return (d ∷ s)

abbrev pub put_line : Text → List Text → List Text
put_line [] lines = lines
put_line (c ∷ s) lines = (c ∷ s) ∷ lines

unfoldable pub filled_lines : List Text → List Text
filled_lines [] = []
filled_lines (line ∷ lines) = put_line (strip_return line) (filled_lines lines)

-- The timer runs on from an earlier chunk if it runs.
unfoldable pub push : Text → LineBuffer → LineBuffer
push chunk b =
    let cut = cut_by (λ c. c == b'\n') (b.buf ++ chunk) in
    record b {
      buf = cut.1;
      timer = is_filled cut.1 || b.timer;
      emitted = b.emitted ++ filled_lines cut.0;
    }

-- The timer fires.
unfoldable pub emit_rest : LineBuffer → LineBuffer
emit_rest b =
    if b.timer
    then record b { buf = []; timer = false; emitted = b.emitted ++ put_line b.buf [] }
    else b

unfoldable pub flush : LineBuffer → LineBuffer
flush b = record b { buf = []; timer = false; emitted = b.emitted ++ put_line b.buf [] }
