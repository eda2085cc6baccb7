-- ===== src/Python/Codec/Ascii.antt =====
-- On ASCII the codecs change nothing.
use ipbench.Prelude.{◌<◌, ◌≡◌, refl, ap, some, [], ◌∷◌, ◌++◌, arith, All, lt→ltb}
use ipbench.Python.Text.{Text, Bytes}
use ipbench.Python.Codec.{encode, decode, decode_ignore, decode_ascii_ignore}

abbrev pub IsAscii : Text → Type 0
IsAscii = All (λ c. c < 0x80)

pub encode_ascii : (s : Text) → IsAscii s → encode s ≡ s
unfolding encode
encode_ascii [] h = refl
encode_ascii (c ∷ s) (h, hs) = rw (encode_ascii s hs) (ground arith)

pub decode_ascii : (s : Bytes) → IsAscii s → decode s ≡ some s
unfolding decode
decode_ascii [] h = refl
decode_ascii (c ∷ s) (h, hs) = rw (lt→ltb c 0x80 h) (rw (decode_ascii s hs) refl)

-- An ASCII prefix is decoded as it is, whatever bytes follow it.
pub decode_ignore-append : (p s : Bytes) → IsAscii p → decode_ignore (p ++ s) ≡ p ++ decode_ignore s
unfolding decode_ignore
decode_ignore-append [] s h = refl
decode_ignore-append (c ∷ p) s (h, hs) =
    rw (lt→ltb c 0x80 h) (ap (λ l. c ∷ l) (decode_ignore-append p s hs))

pub decode_ascii_ignore-append :
    (p s : Bytes) → IsAscii p → decode_ascii_ignore (p ++ s) ≡ p ++ decode_ascii_ignore s
unfolding decode_ascii_ignore
decode_ascii_ignore-append [] s h = refl
decode_ascii_ignore-append (c ∷ p) s (h, hs) = rw (decode_ascii_ignore-append p s hs) (ground arith)
