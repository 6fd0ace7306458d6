-- ===== src/Common/Text.antt =====
-- What the source uses of Python's str and bytes: UTF-8, `split(b"\0", 1)[0]`, `ljust`, `strip`.
-- A str is the list of its code points. Encoding is total: a str with a lone surrogate, on which
-- Python raises a UnicodeEncodeError, is outside the model.
pub mod RoundTrip
use Prim.Native.Nat.{◌≤◌, ℕ, zero, suc, ◌+◌, ◌-◌, ◌*◌, ◌/◌, ◌%◌}
use mathlib.Core.Bool.{Bool, ◌&&◌, ◌||◌}
use mathlib.Core.Option.{Option, none, some}
use mathlib.Core.List.{List, [], ◌∷◌, ◌++◌, reverse}
use solem_blip_ble.Common.Tests.{ltb, leb, ◌==◌, if◌then◌else◌}
use solem_blip_ble.Common.Lists.{length, replicate}

abbrev pub Str : Type 0
Str = List ℕ

-- The bytes of one code point.
unfoldable pub encode_point : ℕ → List ℕ
encode_point c =
    if ltb c 0x80
    then c ∷ []
    else if ltb c 0x800
    then (0xC0 + c / 64) ∷ (0x80 + c % 64) ∷ []
    else if ltb c 0x10000
    then (0xE0 + c / 4096) ∷ (0x80 + c / 64 % 64) ∷ (0x80 + c % 64) ∷ []
    else (0xF0 + c / 262144) ∷ (0x80 + c / 4096 % 64) ∷ (0x80 + c / 64 % 64) ∷ (0x80 + c % 64) ∷ []

-- `s.encode("utf-8")`
unfoldable pub encode : Str → List ℕ
encode [] = []
encode (c ∷ s) = encode_point c ++ encode s

-- The decoder stands between two characters, or wants `left` more bytes, the next in [lo, hi].
pub data Decoder : Type 0 where
  between_points : Decoder
  inside : (left lo hi acc : ℕ) → Decoder

-- A byte that begins a character. `none` in the output stands for an ill-formed part.
unfoldable pub begin : ℕ → List (Option ℕ) × Decoder
begin b =
    if ltb b 0x80
    then (some b ∷ [], between_points)
    else if ltb b 0xC2
    then (none ∷ [], between_points)
    else if ltb b 0xE0
    then ([], inside 0 0x80 0xBF (b - 0xC0))
    else if b == 0xE0
    then ([], inside 1 0xA0 0xBF 0)
    else if b == 0xED
    then ([], inside 1 0x80 0x9F 13)
    else if ltb b 0xF0
    then ([], inside 1 0x80 0xBF (b - 0xE0))
    else if b == 0xF0
    then ([], inside 2 0x90 0xBF 0)
    else if ltb b 0xF4
    then ([], inside 2 0x80 0xBF (b - 0xF0))
    else if b == 0xF4
    then ([], inside 2 0x80 0x8F 4)
    else (none ∷ [], between_points)

unfoldable pub take_byte : ℕ → ℕ → List (Option ℕ) × Decoder
take_byte zero acc = (some acc ∷ [], between_points)
take_byte (suc left) acc = ([], inside left 0x80 0xBF acc)

unfoldable pub step : Decoder → ℕ → List (Option ℕ) × Decoder
unfolding begin take_byte
step between_points b = begin b
step (inside left lo hi acc) b =
    if leb lo b && leb b hi
    then take_byte left (acc * 64 + b % 64)
    else let (out, d) = begin b in (none ∷ out, d)

unfoldable pub decode_from : Decoder → List ℕ → List (Option ℕ)
unfolding step
decode_from between_points [] = []
decode_from (inside left lo hi acc) [] = none ∷ []
decode_from d (b ∷ bs) = let (out, d') = step d b in out ++ decode_from d' bs

abbrev pub replacement : ℕ
replacement = 0xFFFD

unfoldable pub replace_bad : List (Option ℕ) → Str
replace_bad [] = []
replace_bad (some c ∷ r) = c ∷ replace_bad r
replace_bad (none ∷ r) = replacement ∷ replace_bad r

-- `b.decode("utf-8", errors="replace")`
unfoldable pub decode_replace : List ℕ → Str
unfolding decode_from replace_bad
decode_replace bs = replace_bad (decode_from between_points bs)

unfoldable pub all_good : List (Option ℕ) → Option Str
all_good [] = some []
all_good (none ∷ r) = none
all_good (some c ∷ r) = elim (all_good r) [ none ↦ none | some s ↦ some (c ∷ s) ]

-- `b.decode("utf-8")`, with `none` for a UnicodeDecodeError.
unfoldable pub decode_strict : List ℕ → Option Str
unfolding decode_from all_good
decode_strict bs = all_good (decode_from between_points bs)

-- `b.split(b"\x00", 1)[0]`
unfoldable pub until_nul : List ℕ → List ℕ
until_nul [] = []
until_nul (b ∷ bs) = if b == 0 then [] else b ∷ until_nul bs

-- `b.ljust(n, b"\x00")`
unfoldable pub ljust : ℕ → List ℕ → List ℕ
ljust n bs = bs ++ replicate (n - length bs) 0

-- The code points with `str.isspace()`.
unfoldable pub is_space : ℕ → Bool
is_space c =
    leb 9 c && leb c 13
    || (leb 28 c && leb c 32
        || (c == 0x85
            || (c == 0xA0
                || (c == 0x1680
                    || (leb 0x2000 c && leb c 0x200A
                        || (c == 0x2028
                            || (c == 0x2029 || (c == 0x202F || (c == 0x205F || c == 0x3000)))))))))

unfoldable pub lstrip : Str → Str
unfolding is_space
lstrip [] = []
lstrip (c ∷ s) = if is_space c then lstrip s else c ∷ s

unfoldable pub strip : Str → Str
unfolding lstrip
strip s = reverse (lstrip (reverse (lstrip s)))

-- `str(n)` for a byte.
unfoldable pub decimal : ℕ → Str
decimal n =
    if ltb n 10
    then (48 + n) ∷ []
    else if ltb n 100
    then (48 + n / 10) ∷ (48 + n % 10) ∷ []
    else (48 + n / 100) ∷ (48 + n / 10 % 10) ∷ (48 + n % 10) ∷ []
