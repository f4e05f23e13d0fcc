-- ===== src/Node/Tests.antt =====
-- String literals of src/node.c on small inputs.
use streem.Base.{ℕ, List, some, none, [], ◌∷◌, ◌≡◌, refl}
use streem.Value.Dump.{
  dump_bytes, dump_byte, dump_byte_len, dump_bytes_len, dump_text, str_dump, str_dump_len,
}
use streem.Node.{nil_lit, skip}
use streem.Node.Build.{Growing, Item, pair, node, node_array_headers}
use streem.Node.Headers.{node_array_headers_lem}
use streem.Node.Escape.{string_escape, escape_from}

-- A letter, a tab and a quote.
abbrev tabbed : List ℕ
tabbed = 97 ∷ 9 ∷ 34 ∷ []

-- A bell is written over the end of the buffer, and behind an escape is a byte that nobody wrote.
bell_overflows : str_dump (λ i. 7) (7 ∷ []) ≡ none
unfolding str_dump dump_text dump_bytes dump_byte str_dump_len dump_bytes_len dump_byte_len
bell_overflows = refl

escape_garbage : str_dump (λ i. 7) (27 ∷ []) ≡ some (34 ∷ 92 ∷ 101 ∷ 34 ∷ 7 ∷ [])
unfolding str_dump dump_text dump_bytes dump_byte str_dump_len dump_bytes_len dump_byte_len
escape_garbage = refl

-- `\x1g` loses the g, and a backslash that is printed comes back as another string.
digit_lost : string_escape (92 ∷ 120 ∷ 49 ∷ 103 ∷ []) ≡ 1 ∷ []
unfolding escape_from
digit_lost = refl

backslash_lost : string_escape (dump_bytes (92 ∷ 110 ∷ [])) ≡ 10 ∷ []
unfolding escape_from dump_bytes dump_byte
backslash_lost = refl

-- A pair and a plain node: the second header was never written.
abbrev mixed : Growing Item
mixed = record { elements = pair (97 ∷ []) nil_lit ∷ node skip ∷ []; max = 10 }

node_array_headers_lem_example :
    node_array_headers (some mixed) ≡ (nil_lit ∷ skip ∷ [], some (some (97 ∷ []) ∷ none ∷ []))
node_array_headers_lem_example = node_array_headers_lem mixed
