-- ===== src/Base/Utf8.antt =====
-- UTF-8, `str::as_bytes` and `String::from_utf8`.
use Prim.Native.Nat.{ℕ, zero, suc, ◌+◌, ◌-◌, ◌*◌, ◌/◌, ◌%◌}
use mathlib.Core.Bool.{Bool, ◌&&◌, not}
use mathlib.Core.List.{List, [], ◌∷◌, ◌++◌}
use mathlib.Core.Option.{Option, none, some}
use mathlib.Core.Option
use zann.Base.Tests.{ltb, leb, if◌then◌else◌}
use zann.Base.Chars.{Text}

abbrev tail_byte : ℕ → ℕ
tail_byte n = 128 + n % 64

abbrev char_bytes : ℕ → List ℕ
char_bytes c =
    if ltb c 128
    then c ∷ []
    else if ltb c 2048
    then (192 + c / 64) ∷ (tail_byte c ∷ [])
    else if ltb c 65536
    then (224 + c / 4096) ∷ (tail_byte (c / 64) ∷ (tail_byte c ∷ []))
    else (240 + c / 262144) ∷ (tail_byte (c / 4096) ∷ (tail_byte (c / 64) ∷ (tail_byte c ∷ [])))

unfoldable pub to_utf8 : Text → List ℕ
to_utf8 [] = []
to_utf8 (c ∷ cs) = char_bytes c ++ to_utf8 cs

-- Not too long an encoding, no surrogate, and not above the last code point.
abbrev is_scalar : ℕ → ℕ → Bool
is_scalar lowest c = leb lowest c && (leb c 1114111 && not (leb 55296 c && leb c 57343))

-- `pending` bytes are still missing to the code point `c`.
unfoldable pub decode_utf8 : ℕ → ℕ → ℕ → List ℕ → Option Text
decode_utf8 zero lowest c [] = some []
decode_utf8 (suc pending) lowest c [] = none
decode_utf8 zero lowest c (b ∷ bs) =
    let plain = Option.map (λ t. b ∷ t) (decode_utf8 0 0 0 bs) in
    let two = decode_utf8 1 128 (b - 192) bs in
    let three = decode_utf8 2 2048 (b - 224) bs in
    let four = decode_utf8 3 65536 (b - 240) bs in
    if ltb b 128
    then plain
    else if ltb b 192
    then none
    else if ltb b 224
    then two
    else if ltb b 240
    then three
    else if ltb b 248
    then four
    else none
decode_utf8 (suc zero) lowest c (b ∷ bs) =
    let whole = c * 64 + (b - 128) in
    let rest = Option.map (λ t. whole ∷ t) (decode_utf8 0 0 0 bs) in
    if leb 128 b && (ltb b 192 && is_scalar lowest whole) then rest else none
decode_utf8 (suc (suc pending)) lowest c (b ∷ bs) =
    let rest = decode_utf8 (suc pending) lowest (c * 64 + (b - 128)) bs in
    if leb 128 b && ltb b 192 then rest else none

unfoldable pub from_utf8 : List ℕ → Option Text
unfolding decode_utf8
from_utf8 bytes = decode_utf8 0 0 0 bytes
