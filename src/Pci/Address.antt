-- ===== src/Pci/Address.antt =====
-- The fields of `pci_get_address`, and the halves of a dword that the word accesses take.
use aimini_os.Base.{
  ℕ, ◌+◌, ◌*◌, ◌/◌, ◌%◌, ◌^◌, ◌<◌, ◌≡◌, refl, ap, ◌∷◌, some, arith, Bool-cases, inl, inr, eqb→eq,
  eqb→ne, List, ◌==◌, if◌then◌else◌, shr, bit_and, bit_or, u32, shl,
}
use aimini_os.Base.Bits.{bit_or-shifted, bit_or-under, bit_and-shifted, bit_and-low}
use aimini_os.Machine.{Machine, PortEvent, port_in, port_out}
use aimini_os.Pci.{
  pci_config_address, pci_config_data, pci_get_address, pci_config_read_word, pci_config_write_word,
  pci_config_read_dword,
}

-- The enable bit, then the fields at the bits 16, 11 and 8, and the dword's offset.
abbrev pub place_address : ℕ → ℕ → ℕ → ℕ → ℕ
place_address bus slot func offset =
    2 ^ 31 + bus * 2 ^ 16 + slot * 2 ^ 11 + func * 2 ^ 8 + offset / 4 * 4

-- For a bus of 8 bits, a slot of 5, a function of 3 and an offset of 8, the fields of an address
-- do not overlap.
pub pci_get_address_lem :
    (bus slot func offset : ℕ)
    → bus < 2 ^ 8
    → slot < 2 ^ 5
    → func < 2 ^ 3
    → offset < 2 ^ 8
    → pci_get_address bus slot func offset ≡ place_address bus slot func offset
unfolding pci_get_address
pci_get_address_lem bus slot func offset b s f o =
    let low : bit_and offset 0xfc ≡ offset / 4 * 4 =
      omega (arith, bit_and-shifted 2 offset 63, bit_and-low 6 (offset / 4)) in
    let two : bit_or (shl bus 16) (shl slot 11) ≡ (bus * 2 ^ 5 + slot) * 2 ^ 11 =
      omega (arith, bit_or-shifted 16 bus (slot * 2 ^ 11) (omega arith)) in
    let three : bit_or ((bus * 2 ^ 5 + slot) * 2 ^ 11) (shl func 8)
        ≡ (bus * 2 ^ 8 + slot * 2 ^ 3 + func) * 2 ^ 8 =
      omega (arith, bit_or-shifted 11 (bus * 2 ^ 5 + slot) (func * 2 ^ 8) (omega arith)) in
    let rest : ℕ = bus * 2 ^ 8 + slot * 2 ^ 3 + func in
    rw (two, three, low)
      (omega (
        arith,
        bit_or-shifted 8 rest (offset / 4 * 4) (omega arith),
        ap (λ (t : ℕ). bit_or t 0x80000000) (bit_or-shifted 8 rest (offset / 4 * 4) (omega arith)),
        bit_or-under 31 1 (rest * 2 ^ 8 + offset / 4 * 4) (omega arith),
      ))

-- Bit 1 of an offset tells the halves of its dword apart.
pub half_lem : (offset : ℕ) → bit_and offset 2 ≡ offset / 2 % 2 * 2
half_lem offset = omega (arith, bit_and-shifted 1 offset 1, bit_and-low 1 (offset / 2))

-- The half of a dword at an offset, and the dword with a half that stands alone.
abbrev pub half_of : ℕ → ℕ → ℕ
half_of offset dword = if offset / 2 % 2 == 0 then dword % 2 ^ 16 else dword / 2 ^ 16

abbrev pub half_alone : ℕ → ℕ → ℕ
half_alone offset value = if offset / 2 % 2 == 0 then value else value * 2 ^ 16

half_value :
    (offset dword : ℕ)
    → dword < 2 ^ 32
    → bit_and (shr dword (offset / 2 % 2 * 2 * 8)) 0xffff ≡ half_of offset dword
half_value offset dword h = elim (Bool-cases (offset / 2 % 2 == 0)) [
  | inl e ↦
      let z : offset / 2 % 2 ≡ 0 = eqb→eq _ _ e in
      let whole : dword / 2 ^ (0 * 2 * 8) ≡ dword = omega arith in
      rw (z, whole) (omega (arith, bit_and-low 16 dword))
  | inr e ↦
      let z : offset / 2 % 2 ≡ 1 = omega (arith, eqb→ne _ _ e) in
      rw z (omega (arith, bit_and-low 16 (dword / 2 ^ 16)))
]

half_shifted :
    (offset value : ℕ)
    → value < 2 ^ 16
    → u32 (shl value (offset / 2 % 2 * 2 * 8)) ≡ half_alone offset value
half_shifted offset value h = elim (Bool-cases (offset / 2 % 2 == 0)) [
  | inl e ↦ let z : offset / 2 % 2 ≡ 0 = eqb→eq _ _ e in rw z (omega arith)
  | inr e ↦ let z : offset / 2 % 2 ≡ 1 = omega (arith, eqb→ne _ _ e) in rw z (omega arith)
]

abbrev pub addressed : Machine → ℕ → List PortEvent
addressed m a = port_out 4 pci_config_address a ∷ m.ports

abbrev pub asked : Machine → ℕ → List PortEvent
asked m a = port_in 4 pci_config_data ∷ addressed m a

module _ (bus slot func offset : ℕ) (m : Machine) where
  -- The dword that the bridge answers with.
  abbrev pub answer : ℕ
  answer = m.device (asked m (place_address bus slot func offset)) % 2 ^ 32

  module _ (b : bus < 2 ^ 8) (s : slot < 2 ^ 5) (f : func < 2 ^ 3) (o : offset < 2 ^ 8) where
    cut : u32 (place_address bus slot func offset) ≡ place_address bus slot func offset
    cut = omega arith

    -- A word read selects the dword at the offset and takes its half.
    pub pci_config_read_word_lem :
        pci_config_read_word bus slot func offset m
        ≡ some (
          half_of offset answer,
          record m { ports = asked m (place_address bus slot func offset) },
        )
    unfolding pci_config_read_word
    pci_config_read_word_lem =
        rw (pci_get_address_lem bus slot func offset b s f o, cut, half_lem offset)
          (ap
            (λ (v : ℕ). some (v, record m { ports = asked m (place_address bus slot func offset) }))
            (half_value offset answer (omega arith)))

    -- A word write of 16 bits puts the value in its half of the dword, and zero in the other half,
    -- whatever stood there.
    pub pci_config_write_word_lem :
        (value : ℕ)
        → value < 2 ^ 16
        → pci_config_write_word bus slot func offset value m
          ≡ some (
            tt,
            record m {
              ports =
                  port_out 4 pci_config_data (half_alone offset value)
                  ∷ addressed m (place_address bus slot func offset);
            },
          )
    unfolding pci_config_write_word
    pci_config_write_word_lem value v =
        rw (pci_get_address_lem bus slot func offset b s f o, cut, half_lem offset)
          (ap
            (λ (x : ℕ). some (
              tt {0},
              record m {
                ports =
                    port_out 4 pci_config_data x ∷ addressed m (place_address bus slot func offset);
              },
            ))
            (half_shifted offset value v))

    pub pci_config_read_dword_lem :
        pci_config_read_dword bus slot func offset m
        ≡ some (answer, record m { ports = asked m (place_address bus slot func offset) })
    unfolding pci_config_read_dword
    pci_config_read_dword_lem = rw (pci_get_address_lem bus slot func offset b s f o, cut) refl
