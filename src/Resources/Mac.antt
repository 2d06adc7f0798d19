-- ===== src/Resources/Mac.antt =====
-- An address printed the way `hyper_mac_parse` reads it.
use hype_r_io_vm.Base.{
  ℕ, ◌+◌, ◌*◌, ◌/◌, ◌%◌, ◌<◌, ◌≡◌, refl, some, List, [], ◌∷◌, ltb, length, get_or, All, bit_and,
  if◌then◌else◌, arith,
}
use hype_r_io_vm.Resources.{hex_digit, mac_bytes, hyper_mac_parse}

abbrev hex_text : ℕ → ℕ
hex_text n = if ltb n 10 then 48 + n else 87 + n

-- Two lower-case digits for each byte, with a colon between two bytes.
abbrev pub mac_text : List ℕ → List ℕ
mac_text [] = []
mac_text (b ∷ []) = hex_text (b / 16) ∷ hex_text (b % 16) ∷ []
mac_text (b ∷ c ∷ bytes) = hex_text (b / 16) ∷ hex_text (b % 16) ∷ 58 ∷ mac_text (c ∷ bytes)

hex_digit_text : (n : ℕ) → n < 16 → hex_digit (hex_text n) ≡ some n
unfolding hex_digit
hex_digit_text n h = ground (arith, h)

length-mac_text : (b : ℕ) (bytes : List ℕ) → length (mac_text (b ∷ bytes)) ≡ 3 * length bytes + 2
length-mac_text b [] = refl
length-mac_text b (c ∷ bytes) = let rest = length-mac_text c bytes in omega (arith, rest)

mac_bytes_text :
    (bytes : List ℕ)
    → All (λ b. b < 256) bytes
    → mac_bytes (length bytes) (mac_text bytes) ≡ some bytes
unfolding mac_bytes
mac_bytes_text [] small = refl
mac_bytes_text (b ∷ []) (h, _) =
    let high = hex_digit_text (b / 16) (omega (arith, h)) in
    let low = hex_digit_text (b % 16) (omega arith) in
    let whole : b / 16 * 16 + b % 16 ≡ b = omega arith in rw high (rw low (rw whole refl))
mac_bytes_text (b ∷ c ∷ bytes) (h, hs) =
    let high = hex_digit_text (b / 16) (omega (arith, h)) in
    let low = hex_digit_text (b % 16) (omega arith) in
    let whole : b / 16 * 16 + b % 16 ≡ b = omega arith in
    let rest = mac_bytes_text (c ∷ bytes) hs in rw high (rw low (rw rest (rw whole (ground arith))))

-- Six bytes, the first of a locally administered unicast address, are read back from their text
-- in lower-case digits.
pub hyper_mac_parse_text :
    (bytes : List ℕ)
    → length bytes ≡ 6
    → All (λ b. b < 256) bytes
    → bit_and (get_or bytes 0 0) 3 ≡ 2
    → hyper_mac_parse (mac_text bytes) ≡ some bytes
unfolding hyper_mac_parse
hyper_mac_parse_text [] six small local = ground (arith, six)
hyper_mac_parse_text (b ∷ bytes) six small local =
    let size : length (mac_text (b ∷ bytes)) ≡ 17 = omega (arith, six, length-mac_text b bytes) in
    let read : mac_bytes 6 (mac_text (b ∷ bytes)) ≡ some (b ∷ bytes) =
      rw (← six) (mac_bytes_text (b ∷ bytes) small) in
    rw size (rw read (rw local refl))
