-- ===== src/Common/Text/RoundTrip.antt =====
-- Decoding UTF-8 that was encoded, for texts of Unicode scalar values.
use mathlib.Core.List.{map, List, [], ◌∷◌, ◌++◌}
use Prim.Native.Nat.{ℕ, zero, suc, ◌+◌, ◌-◌, ◌*◌, ◌/◌, ◌%◌, ◌≤◌, ◌<◌}
use mathlib.Core.Path.{◌≡◌, refl, ap, ◌∙◌}
use mathlib.Core.Logic.{◌⊎◌}
use mathlib.Core.Option.{Option, some}
use native.Mathlib.Omega.{arith}
use solem_blip_ble.Common.Tests.{◌==◌, if◌then◌else◌}
use solem_blip_ble.Common.Lists.{All, length, replicate}
use solem_blip_ble.Common.Text.{
  Str, encode_point, encode, between_points, inside, decode_from, replace_bad, decode_replace,
  until_nul, ljust,
}

-- A code point that is no surrogate.
abbrev pub IsScalar : ℕ → Type 0
IsScalar c = (c < 0x110000) × ((c < 0xD800) ⊎ (0xDFFF < c))

one_byte :
    (c : ℕ) (rest : List ℕ)
    → c < 0x80
    → decode_from between_points (c ∷ rest) ≡ some c ∷ decode_from between_points rest
unfolding decode_from
one_byte c rest h = ground arith

two_bytes :
    (c : ℕ) (rest : List ℕ)
    → 0x80 ≤ c
    → c < 0x800
    → decode_from between_points ((0xC0 + c / 64) ∷ (0x80 + c % 64) ∷ rest)
      ≡ some c ∷ decode_from between_points rest
unfolding decode_from
two_bytes c rest lo hi = ground arith

three_bytes :
    (c : ℕ) (rest : List ℕ)
    → 0x800 ≤ c
    → c < 0x10000
    → (c < 0xD800) ⊎ (0xDFFF < c)
    → decode_from between_points ((0xE0 + c / 4096) ∷ (0x80 + c / 64 % 64) ∷ (0x80 + c % 64) ∷ rest)
      ≡ some c ∷ decode_from between_points rest
unfolding decode_from
three_bytes c rest lo hi s = ground arith

last_byte :
    (lo hi acc b : ℕ) (rest : List ℕ)
    → lo ≤ b
    → b ≤ hi
    → decode_from (inside 0 lo hi acc) (b ∷ rest)
      ≡ some (acc * 64 + b % 64) ∷ decode_from between_points rest
unfolding decode_from
last_byte lo hi acc b rest l h = ground arith

inner_byte :
    (left lo hi acc b : ℕ) (rest : List ℕ)
    → lo ≤ b
    → b ≤ hi
    → decode_from (inside (suc left) lo hi acc) (b ∷ rest)
      ≡ decode_from (inside left 0x80 0xBF (acc * 64 + b % 64)) rest
unfolding decode_from
inner_byte left lo hi acc b rest l h = ground arith

abbrev low_of : ℕ → ℕ
low_of q = if q == 0 then 0x90 else 0x80

abbrev high_of : ℕ → ℕ
high_of q = if q == 4 then 0x8F else 0xBF

lead_of_four :
    (q : ℕ) (rest : List ℕ)
    → q ≤ 4
    → decode_from between_points ((0xF0 + q) ∷ rest)
      ≡ decode_from (inside 2 (low_of q) (high_of q) q) rest
unfolding decode_from
lead_of_four q rest h = ground arith

four_bytes :
    (c : ℕ) (rest : List ℕ)
    → 0x10000 ≤ c
    → c < 0x110000
    → decode_from between_points (
        (0xF0 + c / 262144)
        ∷ (0x80 + c / 4096 % 64)
        ∷ (0x80 + c / 64 % 64)
        ∷ (0x80 + c % 64)
        ∷ rest)
      ≡ some c ∷ decode_from between_points rest
four_bytes c rest lo hi =
    lead_of_four (c / 262144) _ (omega arith)
    ∙ inner_byte 1 _ _ _ _ _ (ground arith) (ground arith)
    ∙ inner_byte 0 _ _ _ _ _ (omega arith) (omega arith)
    ∙ last_byte _ _ _ _ rest (omega arith) (omega arith)
    ∙ ap (λ (n : ℕ). some n ∷ decode_from between_points rest) (omega arith)

decode_point :
    (c : ℕ) (rest : List ℕ)
    → IsScalar c
    → decode_from between_points (encode_point c ++ rest) ≡ some c ∷ decode_from between_points rest
unfolding encode_point
decode_point c rest (top, s) =
    ground (arith, one_byte c rest, two_bytes c rest, three_bytes c rest, four_bytes c rest)

pub decode_from-encode :
    (s : Str) → All IsScalar s → decode_from between_points (encode s) ≡ map some s
unfolding encode
decode_from-encode [] h = unfold decode_from in refl
decode_from-encode (c ∷ s) (hc, hs) =
    decode_point c (encode s) hc
    ∙ ap (λ (t : List (Option ℕ)). some c ∷ t) (decode_from-encode s hs)

replace_bad-some : (s : Str) → replace_bad (map some s) ≡ s
unfolding replace_bad
replace_bad-some [] = refl
replace_bad-some (c ∷ s) = rw (replace_bad-some s)

-- A text of scalar values comes back from its UTF-8.
pub decode_replace-encode : (s : Str) → All IsScalar s → decode_replace (encode s) ≡ s
decode_replace-encode s h =
    unfold decode_replace in rw (decode_from-encode s h) (replace_bad-some s)

-- The encoding of a text without U+0000 has no zero byte.
abbrev pub NoNul : List ℕ → Type 0
NoNul = All (λ c. 0 < c)

NoNul-encode_point : (c : ℕ) → 0 < c → NoNul (encode_point c)
unfolding encode_point
NoNul-encode_point c h = ground arith

NoNul-append : (xs ys : List ℕ) → NoNul xs → NoNul ys → NoNul (xs ++ ys)
NoNul-append [] ys h k = k
NoNul-append (x ∷ xs) ys (h, hs) k = (h, NoNul-append xs ys hs k)

pub NoNul-encode : (s : Str) → NoNul s → NoNul (encode s)
unfolding encode
NoNul-encode [] h = tt
NoNul-encode (c ∷ s) (h, hs) = NoNul-append _ _ (NoNul-encode_point c h) (NoNul-encode s hs)

until_nul_padded : (xs : List ℕ) (n : ℕ) → NoNul xs → until_nul (xs ++ replicate n 0) ≡ xs
unfolding until_nul
until_nul_padded [] zero h = refl
until_nul_padded [] (suc n) h = refl
until_nul_padded (x ∷ xs) n (h, hs) = ground (arith, until_nul_padded xs n hs)

-- A text without U+0000 comes back from its padded UTF-8, at whatever width.
pub decode-ljust :
    (n : ℕ) (s : Str)
    → All IsScalar s
    → NoNul s
    → decode_replace (until_nul (ljust n (encode s))) ≡ s
unfolding ljust
decode-ljust n s h k =
    rw (until_nul_padded (encode s) (n - length (encode s)) (NoNul-encode s k))
      (decode_replace-encode s h)
