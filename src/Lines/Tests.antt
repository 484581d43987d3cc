-- ===== src/Lines/Tests.antt =====
-- The lines of short streams.
use mcu_debug.Prelude.{true, false, List, [], ◌∷◌, ◌≡◌, refl, codes, All, arith}
use mcu_debug.Mi.Chars.{Text}
use mcu_debug.Lines.Cut.{cut_by}
use mcu_debug.Lines.Reader.{read_lines}
use mcu_debug.Lines.Splitter.{normalize, is_break, new_splitter, write, end_splitter}
use mcu_debug.Lines.Chunks.{IsWhole, write_all, joined, write_all-joined}

abbrev two_chunks : List Text
two_chunks = codes "ok\r\nre" ∷ codes "ady\rgo" ∷ []

two_chunks-IsWhole : All IsWhole two_chunks
two_chunks-IsWhole = (λ e. omega (arith, e), (λ e. omega (arith, e), tt))

write_all-joined_example :
    (end_splitter (write_all two_chunks (new_splitter true))).calls
    ≡ read_lines false [] (joined two_chunks)
write_all-joined_example = write_all-joined two_chunks true two_chunks-IsWhole

three_lines :
    read_lines false [] (joined two_chunks)
    ≡ (codes "ok", false) ∷ (codes "ready", false) ∷ (codes "go", false) ∷ []
unfolding read_lines
three_lines = refl

-- A line end that is cut in two counts twice.
cut_line_end :
    (end_splitter (write_all (codes "ok\r" ∷ codes "\ngo" ∷ []) (new_splitter false))).calls
    ≡ (codes "ok", false) ∷ ([], false) ∷ (codes "go", false) ∷ []
unfolding normalize cut_by is_break write end_splitter new_splitter
cut_line_end = refl
