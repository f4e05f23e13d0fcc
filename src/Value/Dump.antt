-- ===== src/Value/Dump.antt =====
-- `str_dump_len` and `str_dump` of src/value.c: the buffer size and the quoted form of a string.
use streem.Base.{
  ℕ, ◌+◌, ◌/◌, ◌%◌, Bool, ◌&&◌, ◌||◌, not, ltb, leb, ◌==◌, List, [], ◌∷◌, ◌++◌, if◌then◌else◌, suc,
  length, ◌-◌, Option, none, some, zero, ap, append-nil, All, true, false, ◌≡◌, arith,
  length-append, refl,
}

-- `isprint` in the C locale, or a byte above 0x7f.
abbrev pub shown : ℕ → Bool
shown c = (leb 32 c && leb c 126) || ltb 0x7f c

-- The room that `str_dump_len` counts for a byte.
unfoldable pub dump_byte_len : ℕ → ℕ
dump_byte_len c =
    if (c == b'\n') || (c == b'\r') || (c == b'\t') || (c == 34)
    then 2
    else if shown c
    then 1
    else 3

unfoldable pub dump_bytes_len : List ℕ → ℕ
dump_bytes_len [] = 0
dump_bytes_len (c ∷ cs) = dump_byte_len c + dump_bytes_len cs

unfoldable pub str_dump_len : List ℕ → ℕ
unfolding dump_bytes_len dump_byte_len
str_dump_len s = 2 + dump_bytes_len s

-- A digit of `%02x`.
abbrev pub hex : ℕ → ℕ
hex d = if ltb d 10 then d + 48 else d + 87

-- What `str_dump` writes for a byte.
unfoldable pub dump_byte : ℕ → List ℕ
dump_byte c =
    if c == b'\n'
    then 92 ∷ b'n' ∷ []
    else if c == b'\r'
    then 92 ∷ b'r' ∷ []
    else if c == b'\t'
    then 92 ∷ b't' ∷ []
    else if c == 27
    then 92 ∷ b'e' ∷ []
    else if c == 0
    then 92 ∷ b'0' ∷ []
    else if c == 34
    then 92 ∷ 34 ∷ []
    else if shown c
    then c ∷ []
    else 92 ∷ b'x' ∷ hex (c / 16) ∷ hex (c % 16) ∷ []

unfoldable pub dump_bytes : List ℕ → List ℕ
dump_bytes [] = []
dump_bytes (c ∷ cs) = dump_byte c ++ dump_bytes cs

-- The bytes that `str_dump` writes.
unfoldable pub dump_text : List ℕ → List ℕ
unfolding dump_bytes dump_byte
dump_text s = 34 ∷ dump_bytes s ++ 34 ∷ []

-- So many bytes that nobody has written.
abbrev pub garbage : (ℕ → ℕ) → ℕ → List ℕ
garbage memory zero = []
garbage memory (suc n) = memory n ∷ garbage memory n

-- `str_dump`, whose buffer has `str_dump_len` bytes, and whose result has all of them, written or not:
-- `memory` is what they hold. None: it writes beyond the buffer.
unfoldable pub str_dump : (memory : ℕ → ℕ) → List ℕ → Option (List ℕ)
unfolding dump_text str_dump_len
str_dump memory s =
    if leb (length (dump_text s)) (str_dump_len s)
    then some (dump_text s ++ garbage memory (str_dump_len s - length (dump_text s)))
    else none

-- How many bytes of a string pass a test.
abbrev pub count : (ℕ → Bool) → List ℕ → ℕ
count p [] = 0
count p (c ∷ cs) = if p c then suc (count p cs) else count p cs

-- ESC and NUL, which take one byte less than was counted.
abbrev pub short_escape : ℕ → Bool
short_escape c = (c == 27) || (c == 0)

-- The other control characters without an escape of their own, which take one byte more.
abbrev pub hex_escape : ℕ → Bool
hex_escape c = not (short_escape c) && (dump_byte_len c == 3)

byte-length :
    (c : ℕ)
    → length (dump_byte c) + (if short_escape c then 1 else 0)
      ≡ dump_byte_len c + (if hex_escape c then 1 else 0)
unfolding dump_byte dump_byte_len
byte-length c = ground arith

bytes-length :
    (s : List ℕ)
    → length (dump_bytes s) + count short_escape s ≡ dump_bytes_len s + count hex_escape s
unfolding dump_bytes dump_bytes_len
bytes-length [] = refl
bytes-length (c ∷ cs) =
    ground (arith, byte-length c, bytes-length cs, length-append (dump_byte c) (dump_bytes cs))

-- The text written is as long as the room counted for it, less one for each ESC and NUL and plus one
-- for each other control character that has no escape of its own.
pub length-dump_text :
    (s : List ℕ) → length (dump_text s) + count short_escape s ≡ str_dump_len s + count hex_escape s
unfolding dump_text str_dump_len
length-dump_text s = ground (arith, bytes-length s, length-append (dump_bytes s) (34 ∷ []))

-- Without any of these bytes, it writes the whole buffer.
abbrev pub Exact : ℕ → Type 0
Exact c = (short_escape c ≡ false) × (hex_escape c ≡ false)

no_short : (s : List ℕ) → All Exact s → count short_escape s ≡ 0
no_short [] a = refl
no_short (c ∷ s) a = rw a.0.0 (no_short s a.1)

no_hex : (s : List ℕ) → All Exact s → count hex_escape s ≡ 0
no_hex [] a = refl
no_hex (c ∷ s) a = rw a.0.1 (no_hex s a.1)

pub str_dump-Exact :
    (memory : ℕ → ℕ) (s : List ℕ) → All Exact s → str_dump memory s ≡ some (dump_text s)
unfolding str_dump
str_dump-Exact memory s a =
    let k : length (dump_text s) ≡ str_dump_len s =
      omega (arith, length-dump_text s, no_short s a, no_hex s a) in
    let e : leb (length (dump_text s)) (str_dump_len s) ≡ true = ground (arith, k) in
    let z : str_dump_len s - length (dump_text s) ≡ 0 = omega (arith, k) in
    rw e (rw z (ap some (append-nil (dump_text s))))
