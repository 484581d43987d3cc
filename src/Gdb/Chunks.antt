-- ===== src/Gdb/Chunks.antt =====
-- How gdb's output is cut into chunks makes no difference, unless a chunk ends inside a character.
use mcu_debug.Prelude.{
  ℕ, All, List, [], ◌∷◌, ◌++◌, ◌≡◌, refl, sym, ap, ◌∙◌, append_assoc, append-nil, arith, append-nil,
  ◌==◌,
}
use mcu_debug.Mi.Chars.{Text, trim}
use mcu_debug.Lines.Cut.{cut_by-append}
use mcu_debug.Lines.Chunks.{joined}
use mcu_debug.Gdb.State.{GdbInstance}
use mcu_debug.Gdb.Utf8.{Decoder, between, decode_byte, decode_from, to_string}
use mcu_debug.Gdb.Output.{
  cut_lines, handle_lines, handle_output_line, handle_output, handle_result, handle_found,
  handle_answer, handle_stdout_data, handle_stdout_text,
}

handle_lines-append :
    (ls ms : List Text) (g : GdbInstance)
    → handle_lines (ls ++ ms) g ≡ handle_lines ms (handle_lines ls g)
unfolding handle_lines
handle_lines-append [] ms g = refl
handle_lines-append (l ∷ ls) ms g = handle_lines-append ls ms (handle_output_line (trim l) g)

-- Handling lines, with another text in the buffer.
handle_output_line-stdout_buf :
    (line rest : Text) (g : GdbInstance)
    → handle_output_line line (record g { stdout_buf = rest })
      ≡ record (handle_output_line line g) { stdout_buf = rest }
unfolding handle_output_line handle_output handle_result handle_found handle_answer
handle_output_line-stdout_buf line rest g = ground arith

handle_lines-stdout_buf :
    (lines : List Text) (rest : Text) (g : GdbInstance)
    → handle_lines lines (record g { stdout_buf = rest })
      ≡ record (handle_lines lines g) { stdout_buf = rest }
unfolding handle_lines
handle_lines-stdout_buf [] rest g = refl
handle_lines-stdout_buf (l ∷ ls) rest g =
    ap (handle_lines ls) (handle_output_line-stdout_buf (trim l) rest g)
    ∙ handle_lines-stdout_buf ls rest (handle_output_line (trim l) g)

handle_stdout_text-append :
    (s t : Text) (g : GdbInstance)
    → handle_stdout_text (s ++ t) g ≡ handle_stdout_text t (handle_stdout_text s g)
unfolding handle_stdout_text
handle_stdout_text-append s t g =
    let b = cut_lines (g.stdout_buf ++ s) in
    let u = cut_lines (b.1 ++ t) in
    rw
      (
        handle_lines-stdout_buf b.0 b.1 g,
        sym (append_assoc g.stdout_buf s t),
        cut_by-append (λ c. c == b'\n') (g.stdout_buf ++ s) t,
        handle_lines-append b.0 u.0 (record g { stdout_buf = u.1 }),
        handle_lines-stdout_buf b.0 u.1 g,
      )
      refl

-- What a decoder waits for behind some bytes.
abbrev pub decoder_after : Decoder → List ℕ → Decoder
decoder_after d [] = d
decoder_after d (b ∷ s) = decoder_after (decode_byte d b).1 s

-- A chunk that does not end inside a character.
abbrev pub IsComplete : List ℕ → Type 0
IsComplete chunk = decoder_after between chunk ≡ between

decode_from-append :
    (d : Decoder) (s t : List ℕ)
    → decoder_after d s ≡ between
    → decode_from d (s ++ t) ≡ decode_from d s ++ decode_from between t
unfolding decode_from
decode_from-append d [] t e = rw e refl
decode_from-append d (b ∷ s) t e =
    ap (λ u. (decode_byte d b).0 ++ u) (decode_from-append (decode_byte d b).1 s t e)
    ∙ sym (
        append_assoc (decode_byte d b).0 (decode_from (decode_byte d b).1 s)
          (decode_from between t))

handle_stdout_data-append :
    (s t : List ℕ) (g : GdbInstance)
    → IsComplete s
    → handle_stdout_data (s ++ t) g ≡ handle_stdout_data t (handle_stdout_data s g)
unfolding handle_stdout_data to_string
handle_stdout_data-append s t g complete =
    ap (λ str. handle_stdout_text str g) (decode_from-append between s t complete)
    ∙ handle_stdout_text-append (decode_from between s) (decode_from between t) g

-- The chunks of a stream, one after the other.
abbrev pub handle_chunks : List (List ℕ) → GdbInstance → GdbInstance
handle_chunks [] g = g
handle_chunks (chunk ∷ chunks) g = handle_chunks chunks (handle_stdout_data chunk g)

-- Output of gdb that comes in chunks of bytes, one at least, none of which ends inside a character,
-- leaves the same state as when it comes whole.
pub handle_chunks-joined :
    (chunk : List ℕ) (chunks : List (List ℕ)) (g : GdbInstance)
    → All IsComplete (chunk ∷ chunks)
    → handle_chunks (chunk ∷ chunks) g ≡ handle_stdout_data (joined (chunk ∷ chunks)) g
handle_chunks-joined chunk [] g complete = rw (append-nil chunk) refl
handle_chunks-joined chunk (next ∷ chunks) g (complete, rest) =
    handle_chunks-joined next chunks (handle_stdout_data chunk g) rest
    ∙ sym (handle_stdout_data-append chunk (joined (next ∷ chunks)) g complete)
