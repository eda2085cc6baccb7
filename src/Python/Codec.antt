-- ===== src/Python/Codec.antt =====
-- The codecs: `encode('utf-8')`, and `decode` of UTF-8 and of ASCII, strict or with
-- `errors='ignore'`. A malformed sequence is one error, up to the byte that cannot continue it.
pub mod Ascii
use ipbench.Prelude.{
  ℕ, zero, suc, ◌+◌, ◌-◌, ◌*◌, ◌/◌, ◌%◌, Bool, true, false, ◌&&◌, Option, none, some, List, [], ◌∷◌,
  ◌++◌, ltb, leb, ◌==◌, if◌then◌else◌,
}
use ipbench.Python.Text.{Text, Bytes}

abbrev continuation : ℕ → ℕ
continuation n = 0x80 + n % 64

-- One character as UTF-8.
abbrev encode_char : ℕ → Bytes
encode_char c =
    if ltb c 0x80
    then c ∷ []
    else if ltb c 0x800
    then (0xc0 + c / 64) ∷ continuation c ∷ []
    else if ltb c 0x1_0000
    then (0xe0 + c / 4096) ∷ continuation (c / 64) ∷ continuation c ∷ []
    else (0xf0 + c / 0x4_0000)
      ∷ continuation (c / 4096)
      ∷ continuation (c / 64)
      ∷ continuation c
      ∷ []

unfoldable pub encode : Text → Bytes
encode [] = []
encode (c ∷ s) = encode_char c ++ encode s

-- Between two characters, or within one that wants `left` more bytes, the next from `lo` to `hi`.
pub data Decoder : Type 0 where
  fresh : Decoder
  within : (left lo hi acc : ℕ) → Decoder

-- A byte at the start of a character. What comes out is a character or an error.
first_byte : ℕ → List (Option ℕ) × Decoder
first_byte b =
    if ltb b 0x80
    then (some b ∷ [], fresh)
    else if ltb b 0xc2
    then (none ∷ [], fresh)
    else if ltb b 0xe0
    then ([], within 1 0x80 0xbf (b - 0xc0))
    else if b == 0xe0
    then ([], within 2 0xa0 0xbf 0)
    else if b == 0xed
    then ([], within 2 0x80 0x9f 13)
    else if ltb b 0xf0
    then ([], within 2 0x80 0xbf (b - 0xe0))
    else if b == 0xf0
    then ([], within 3 0x90 0xbf 0)
    else if ltb b 0xf4
    then ([], within 3 0x80 0xbf (b - 0xf0))
    else if b == 0xf4
    then ([], within 3 0x80 0x8f 4)
    else (none ∷ [], fresh)

decode_step : Decoder → ℕ → List (Option ℕ) × Decoder
unfolding first_byte
decode_step fresh b = first_byte b
decode_step (within left lo hi acc) b =
    let next = acc * 64 + (b - 0x80) in
    if leb lo b && leb b hi
    then (if left == 1 then (some next ∷ [], fresh) else ([], within (left - 1) 0x80 0xbf next))
    else (let (out, st) = first_byte b in (none ∷ out, st))

decoded : Decoder → Bytes → List (Option ℕ)
unfolding decode_step
decoded fresh [] = []
decoded (within left lo hi acc) [] = none ∷ []
decoded st (b ∷ bs) = let (out, st') = decode_step st b in out ++ decoded st' bs

-- An error is a UnicodeDecodeError.
abbrev all_some : List (Option ℕ) → Option Text
all_some [] = some []
all_some (none ∷ l) = none
all_some (some c ∷ l) = elim (all_some l) [ none ↦ none | some s ↦ some (c ∷ s) ]

abbrev only_some : List (Option ℕ) → Text
only_some [] = []
only_some (none ∷ l) = only_some l
only_some (some c ∷ l) = c ∷ only_some l

-- b.decode('utf-8')
unfoldable pub decode : Bytes → Option Text
unfolding decoded
decode bs = all_some (decoded fresh bs)

-- b.decode('utf-8', errors='ignore')
unfoldable pub decode_ignore : Bytes → Text
unfolding decoded
decode_ignore bs = only_some (decoded fresh bs)

-- b.decode('ascii', errors='ignore')
unfoldable pub decode_ascii_ignore : Bytes → Text
decode_ascii_ignore [] = []
decode_ascii_ignore (b ∷ bs) =
    let rest = decode_ascii_ignore bs in if ltb b 0x80 then b ∷ rest else rest
