-- ===== src/Resources/Number.antt =====
-- The numbers that the resource parser accepts are the decimal numerals up to INT_MAX.
use hype_r_io_vm.Base.{
  ℕ, ◌+◌, ◌-◌, ◌*◌, ◌≤◌, ◌<◌, ◌≡◌, ◌≢◌, ◌⊎◌, ◌↔◌, refl, sym, subst, ap, ◌∙◌, some, List, [], ◌∷◌,
  All, arith,
}
use hype_r_io_vm.Service.State.{NetworkResources}
use hype_r_io_vm.Resources.{
  int_max, rx_backlog_max, tx_buffer_min, digits, hyper_network_resource_number,
  hyper_network_resources_parse,
}

abbrev pub IsDigit : ℕ → Type 0
IsDigit c = (48 ≤ c) × (c ≤ 57)

-- The number that a text of digits denotes, after the digits read before it.
abbrev pub value : ℕ → List ℕ → ℕ
value n [] = n
value n (c ∷ text) = value (n * 10 + (c - 48)) text

value_grows : (n : ℕ) (text : List ℕ) → n ≤ value n text
value_grows n [] = omega arith
value_grows n (c ∷ text) = let rest = value_grows (n * 10 + (c - 48)) text in omega (arith, rest)

-- One digit is taken exactly where the number with it does not exceed INT_MAX.
digits_step :
    (n c : ℕ) (text : List ℕ)
    → IsDigit c
    → n * 10 + (c - 48) ≤ int_max
    → digits n (c ∷ text) ≡ digits (n * 10 + (c - 48)) text
unfolding digits
digits_step n c text d h = ground (arith, d, h)

digits_accept :
    (n c : ℕ) (text : List ℕ) (m : ℕ)
    → digits n (c ∷ text) ≡ some m
    → IsDigit c × (n * 10 + (c - 48) ≤ int_max)
unfolding digits
digits_accept n c text m h = ground (arith, h)

digits_sound :
    (n : ℕ) (text : List ℕ) (m : ℕ)
    → n ≤ int_max
    → digits n text ≡ some m
    → All IsDigit text × (m ≡ value n text) × (m ≤ int_max)
unfolding digits
digits_sound n [] m small h = ground (arith, h)
digits_sound n (c ∷ text) m small h =
    let (d, next) = digits_accept n c text m h in
    let (all, e, bound) =
      digits_sound (n * 10 + (c - 48)) text m next (sym (digits_step n c text d next) ∙ h) in
    ((d, all), e, bound)

digits_complete :
    (n : ℕ) (text : List ℕ)
    → All IsDigit text
    → value n text ≤ int_max
    → digits n text ≡ some (value n text)
unfolding digits
digits_complete n [] all small = refl
digits_complete n (c ∷ text) (d, all) small =
    let grows = value_grows (n * 10 + (c - 48)) text in
    digits_step n c text d (omega (arith, grows, small))
    ∙ digits_complete (n * 10 + (c - 48)) text all small

number_sound :
    (text : List ℕ) (n : ℕ)
    → hyper_network_resource_number text ≡ some n
    → (text ≢ []) × All IsDigit text × (n ≡ value 0 text) × (n ≤ int_max)
unfolding hyper_network_resource_number
number_sound [] n h = ground (arith, h)
number_sound (c ∷ text) n h =
    let (all, e, bound) = digits_sound 0 (c ∷ text) n (omega arith) h in
    (λ e. ground (arith, e), all, e, bound)

number_complete :
    (text : List ℕ)
    → text ≢ []
    → All IsDigit text
    → value 0 text ≤ int_max
    → hyper_network_resource_number text ≡ some (value 0 text)
unfolding hyper_network_resource_number
number_complete [] ne all small = absurd (ne refl)
number_complete (c ∷ text) ne all small = digits_complete 0 (c ∷ text) all small

-- A text gives a number exactly where it is a nonempty decimal numeral of that value, up to
-- INT_MAX.
pub hyper_network_resource_number_lem :
    (text : List ℕ) (n : ℕ)
    → (hyper_network_resource_number text ≡ some n)
      ↔ ((text ≢ []) × All IsDigit text × (n ≡ value 0 text) × (n ≤ int_max))
hyper_network_resource_number_lem text n = (
  number_sound text n,
  λ (ne, all, e, small).
      number_complete text ne all (subst (λ m. m ≤ int_max) e small) ∙ ap some (sym e),
)

-- Resources that are parsed are the numbers that their texts denote: a backlog of 1 to 65536
-- packets, and a buffer of at most INT_MAX bytes that is 0 or at least 65536.
pub hyper_network_resources_parse_lem :
    (rx tx : List ℕ) (r : NetworkResources)
    → hyper_network_resources_parse rx tx ≡ some r
    → (r.rx_backlog_packets ≡ value 0 rx)
      × (0 < r.rx_backlog_packets)
      × (r.rx_backlog_packets ≤ rx_backlog_max)
      × (r.tx_buffer_bytes ≡ value 0 tx)
      × (r.tx_buffer_bytes ≤ int_max)
      × ((r.tx_buffer_bytes ≡ 0) ⊎ (tx_buffer_min ≤ r.tx_buffer_bytes))
unfolding hyper_network_resources_parse
hyper_network_resources_parse_lem rx tx r h =
    let packets = number_sound rx r.rx_backlog_packets (ground (arith, h)) in
    let bytes = number_sound tx r.tx_buffer_bytes (ground (arith, h)) in
    (packets.2, ground (arith, h), ground (arith, h), bytes.2, bytes.3, ground (arith, h))
