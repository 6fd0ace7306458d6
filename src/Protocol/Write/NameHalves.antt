-- ===== src/Protocol/Write/NameHalves.antt =====
-- The two halves of a program name, as a write of src/solem_blip_ble/protocol.py sends them and
-- assembly joins them.
use Prim.Native.Nat.{◌≤◌}
use solem_blip_ble.Common.Lists.{take_all, length-drop, take-append-drop}
use solem_blip_ble.Common.{
  ℕ, zero, suc, ◌≤◌, ◌≡◌, refl, ap, ◌∙◌, [], ◌∷◌, ◌++◌, arith, Bytes, length, take, drop, replicate,
}
use solem_blip_ble.Common.Text.{until_nul}
use solem_blip_ble.Common.Text.RoundTrip.{NoNul}

zeros : (n k : ℕ) → until_nul (take k (replicate n 0)) ≡ []
unfolding until_nul
zeros zero zero = refl
zeros zero (suc k) = refl
zeros (suc n) zero = refl
zeros (suc n) (suc k) = refl

NoNul-drop : (k : ℕ) (e : Bytes) → NoNul e → NoNul (drop k e)
NoNul-drop zero e h = h
NoNul-drop (suc k) [] h = tt
NoNul-drop (suc k) (c ∷ e) h = NoNul-drop k e h.1

-- Of padded bytes without a zero, `take` gives what it gives of the bytes.
until_nul-take :
    (k : ℕ) (e : Bytes) (n : ℕ) → NoNul e → until_nul (take k (e ++ replicate n 0)) ≡ take k e
unfolding until_nul
until_nul-take zero e n h = refl
until_nul-take (suc k) [] n h = zeros n (suc k)
until_nul-take (suc k) (c ∷ e) n (h, hs) = ground (arith, until_nul-take k e n hs)

drop-nil : (k : ℕ) → drop {A = ℕ} k [] ≡ []
drop-nil zero = refl
drop-nil (suc k) = refl

drop-padded :
    (k : ℕ) (e : Bytes) (n : ℕ)
    → (m : ℕ) × (drop k (e ++ replicate n 0) ≡ drop k e ++ replicate m 0)
drop-padded zero e n = (n, refl)
drop-padded (suc k) [] zero = (0, refl)
drop-padded (suc k) [] (suc n) = let (m, rest) = drop-padded k [] n in (m, rest ∙ rw (drop-nil k))
drop-padded (suc k) (c ∷ e) n = drop-padded k e n

take-take : (k : ℕ) (xs : Bytes) → take k (take k xs) ≡ take k xs
take-take zero xs = refl
take-take (suc k) [] = refl
take-take (suc k) (x ∷ xs) = ap (λ (t : Bytes). x ∷ t) (take-take k xs)

-- The zero that ends the second half hides nothing.
ending_zero :
    (k : ℕ) (q : Bytes) → until_nul (take (suc k) (take k q ++ (0 ∷ []))) ≡ until_nul (take k q)
unfolding until_nul
ending_zero zero q = refl
ending_zero (suc k) [] = refl
ending_zero (suc k) (c ∷ q) = ground (arith, ending_zero k q)

-- The two halves of a padded name of at most 31 bytes, without a zero byte, join to the name.
pub halves_join :
    (e : Bytes) (n : ℕ)
    → NoNul e
    → length e ≤ 31
    → until_nul (take 16 (take 16 (e ++ replicate n 0)))
        ++ until_nul (take 16 (take 15 (drop 16 (e ++ replicate n 0)) ++ (0 ∷ [])))
      ≡ e
halves_join e n h l =
    let (m, rest) = drop-padded 16 e n in
    let first : until_nul (take 16 (take 16 (e ++ replicate n 0))) ≡ take 16 e =
      ap until_nul (take-take 16 (e ++ replicate n 0)) ∙ until_nul-take 16 e n h in
    let second : until_nul (take 16 (take 15 (drop 16 (e ++ replicate n 0)) ++ (0 ∷ [])))
        ≡ drop 16 e =
      ending_zero 15 (drop 16 (e ++ replicate n 0))
      ∙ ap (λ (q : Bytes). until_nul (take 15 q)) rest
      ∙ until_nul-take 15 (drop 16 e) m (NoNul-drop 16 e h)
      ∙ take_all 15 (drop 16 e) (omega (arith, length-drop 16 e)) in
    rw (first, second) (take-append-drop 16 e)
