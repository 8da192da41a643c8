-- ===== src/Pci/Find.antt =====
-- `pci_find_device` against a search of a configuration space.
use aimini_os.Base.{
  ℕ, zero, suc, ◌+◌, ◌*◌, ◌%◌, ◌/◌, ◌^◌, ◌<◌, ◌≤◌, ◌≡◌, refl, sym, ap, ◌∙◌, Bool, true, false,
  Option, none, some, List, [], ◌∷◌, ◌++◌, map, M, ◌>>=◌, ◌==◌, arith, then_lem, Bool-cases,
  Option-cases, inl, inr, eqb→eq, eqb→ne, eq→eqb, ne→eqb,
}
use aimini_os.Machine.{PortEvent, port_in, port_out, Machine}
use aimini_os.Pci.{
  pci_config_address, pci_config_data, pci_vendor_id, pci_device_id, pci_config_read_word,
}
use aimini_os.Pci.Address.{place_address, asked, half_of, answer, pci_config_read_word_lem}
use aimini_os.Pci.Look.{Looks, no_look, look, Looks-trans}
use aimini_os.Pci.Scan.{pci_is_device, find_in_slots, find_in_buses, pci_find_device}

-- The host bridge: a read of the data port gives the dword of the configuration space whose
-- address was written right before.
pub record IsBridge (space : ℕ → ℕ) (device : List PortEvent → ℕ) : Type 0 where
  pub answers :
      (h : List PortEvent) (a : ℕ)
      → device (port_in 4 pci_config_data ∷ port_out 4 pci_config_address a ∷ h) ≡ space a
  pub dword : (a : ℕ) → space a < 2 ^ 32

-- The first element that passes a test.
abbrev pub find_first : {A : Type 0} → (A → Bool) → List A → Option A
find_first p [] = none
find_first p (x ∷ xs) = let later = find_first p xs in elim (p x) [ true ↦ some x | false ↦ later ]

abbrev pub count_up : ℕ → ℕ → List ℕ
count_up zero i = []
count_up (suc left) i = i ∷ count_up left (i + 1)

abbrev pub concat : {A : Type 0} → List (List A) → List A
concat [] = []
concat (xs ∷ xss) = xs ++ concat xss

-- The slots of a bus, and of all buses that the kernel knows, in order.
abbrev pub slots_of : ℕ → ℕ → ℕ → List (ℕ × ℕ)
slots_of left b s = map (λ (i : ℕ). (b, i)) (count_up left s)

abbrev pub all_slots : ℕ → ℕ → List (ℕ × ℕ)
all_slots left b = concat (map (λ (i : ℕ). slots_of 32 i 0) (count_up left b))

-- The first dword of function 0 holds the vendor in its low half and the device in its high half.
abbrev pub holds : (ℕ → ℕ) → ℕ → ℕ → ℕ × ℕ → Bool
holds space vendor device (b, s) =
    space (2 ^ 31 + b * 2 ^ 16 + s * 2 ^ 11) == device * 2 ^ 16 + vendor

-- A normal return of `value` that looked at the configuration space and did nothing else.
pub record Finds {A : Type 0} (m : Machine) (value : A) (result : Option (A × Machine))
    : Type 0 where
  pub ports : List PortEvent
  pub returns : result ≡ some (value, record m { ports = ports })
  pub looks : Looks m.ports ports

Finds-pure : {A : Type 0} (m : Machine) (a : A) → Finds m a (some (a, m))
Finds-pure m a = record { ports = m.ports; returns = refl; looks = no_look }

Finds-bind :
    {A B : Type 0} (m : Machine) (x : M Machine A) (f : A → M Machine B) {a : A} {b : B}
    → Finds m a (x m)
    → ((ports : List PortEvent)
        → Finds (record m { ports = ports }) b (f a (record m { ports = ports })))
    → Finds m b ((x >>= f) m)
Finds-bind m x f q r =
    let s = r q.ports in
    record {
      ports = s.ports;
      returns = then_lem x f q.returns ∙ s.returns;
      looks = Looks-trans q.looks s.looks;
    }

find_first_step :
    {A : Type 0} (t : Bool) (x : A) (later : Option A) (all rest : Option A)
    → all ≡ elim later [ some z ↦ some z | none ↦ rest ]
    → elim t as (λ _. Option A) [ true ↦ some x | false ↦ all ]
      ≡ elim (elim t as (λ _. Option A) [ true ↦ some x | false ↦ later ]) as (λ _. Option A) [
        | some z ↦ some z
        | none ↦ rest
      ]
find_first_step true x later all rest e = refl
find_first_step false x later all rest e = e

find_first-append :
    {A : Type 0} (p : A → Bool) (xs ys : List A)
    → find_first p (xs ++ ys) ≡ elim (find_first p xs) [ some x ↦ some x | none ↦ find_first p ys ]
find_first-append p [] ys = refl
find_first-append p (x ∷ xs) ys =
    find_first_step (p x) x (find_first p xs) (find_first p (xs ++ ys)) (find_first p ys)
      (find_first-append p xs ys)

slots_here :
    (p : ℕ × ℕ → Bool) (left b s : ℕ)
    → p (b, s) ≡ true
    → find_first p (slots_of (suc left) b s) ≡ some (b, s)
slots_here p left b s e = rw e refl

slots_next :
    (p : ℕ × ℕ → Bool) (left b s : ℕ)
    → p (b, s) ≡ false
    → find_first p (slots_of (suc left) b s) ≡ find_first p (slots_of left b (s + 1))
slots_next p left b s e = rw e refl

-- Two halves are right exactly when the dword is.
both_halves :
    (x vendor device : ℕ)
    → vendor < 2 ^ 16
    → x % 2 ^ 16 ≡ vendor
    → (x / 2 ^ 16 == device) ≡ (x == device * 2 ^ 16 + vendor)
both_halves x vendor device v e = elim (Bool-cases (x / 2 ^ 16 == device)) [
  | inl y ↦ y ∙ sym (eq→eqb x _ (omega (arith, eqb→eq _ _ y)))
  | inr n ↦ n ∙ sym (ne→eqb x _ (λ q. eqb→ne _ _ n (omega arith)))
]

module _ (space : ℕ → ℕ) (vendor device : ℕ) (v : vendor < 2 ^ 16) where
  abbrev dword_at : ℕ → ℕ → ℕ
  dword_at b s = space (2 ^ 31 + b * 2 ^ 16 + s * 2 ^ 11)

  answer_lem :
      (b s offset : ℕ) (m : Machine)
      → IsBridge space m.device
      → offset < 4
      → answer b s 0 offset m ≡ dword_at b s
  answer_lem b s offset m i o =
      let e : place_address b s 0 offset ≡ 2 ^ 31 + b * 2 ^ 16 + s * 2 ^ 11 = omega arith in
      omega (
        arith,
        i.answers m.ports (place_address b s 0 offset),
        ap space e,
        i.dword (place_address b s 0 offset),
      )

  Finds-word :
      (b s offset : ℕ) (m : Machine)
      → IsBridge space m.device
      → b < 2 ^ 8
      → s < 2 ^ 5
      → offset < 4
      → Finds m (half_of offset (dword_at b s)) (pci_config_read_word b s 0 offset m)
  Finds-word b s offset m i h k o = record {
    ports = asked m (place_address b s 0 offset);
    returns =
        pci_config_read_word_lem b s 0 offset m h k (omega arith) (omega arith)
        ∙ ap
            (λ (x : ℕ).
              some (half_of offset x, record m { ports = asked m (place_address b s 0 offset) }))
            (answer_lem b s offset m i o);
    looks = look _ no_look;
  }

  Finds-pci_is_device :
      (b s : ℕ) (m : Machine)
      → IsBridge space m.device
      → b < 2 ^ 8
      → s < 2 ^ 5
      → Finds m (holds space vendor device (b, s)) (pci_is_device vendor device b s m)
  unfolding pci_is_device
  Finds-pci_is_device b s m i h k =
      Finds-bind m (pci_config_read_word b s 0 pci_vendor_id) _
        (Finds-word b s 0 m i h k (omega arith))
        (λ ports. elim (Bool-cases (dword_at b s % 2 ^ 16 == vendor)) [
          | inl y ↦ rw y (
              let n : Machine = record m { ports = ports } in
              Finds-bind n (pci_config_read_word b s 0 pci_device_id) _
                (Finds-word b s 2 n i h k (omega arith))
                (λ ports'.
                  rw (both_halves (dword_at b s) vendor device v (eqb→eq _ _ y))
                    (Finds-pure (record m { ports = ports' }) _)))
          | inr n ↦
              rw
                (
                  n,
                  ne→eqb (dword_at b s) (device * 2 ^ 16 + vendor)
                      (λ q. eqb→ne _ _ n (omega arith)),
                )
                (Finds-pure (record m { ports = ports }) false)
        ])

  Finds-find_in_slots :
      (left b s : ℕ) (m : Machine)
      → IsBridge space m.device
      → b < 2 ^ 8
      → s + left ≤ 2 ^ 5
      → Finds m
          (find_first (holds space vendor device) (slots_of left b s))
          (find_in_slots vendor device left b s m)
  unfolding find_in_slots
  Finds-find_in_slots zero b s m i h k = Finds-pure m none
  Finds-find_in_slots (suc left) b s m i h k =
      Finds-bind m (pci_is_device vendor device b s) _ (Finds-pci_is_device b s m i h (omega arith))
        (λ ports. elim (Bool-cases (holds space vendor device (b, s))) [
          | inl y ↦
              rw (slots_here (holds space vendor device) left b s y, y)
                (Finds-pure (record m { ports = ports }) _)
          | inr other ↦
              rw (slots_next (holds space vendor device) left b s other, other)
                (Finds-find_in_slots left b (s + 1) (record m { ports = ports }) i h (omega arith))
        ])

  Finds-find_in_buses :
      (left b : ℕ) (m : Machine)
      → IsBridge space m.device
      → b + left ≤ 2 ^ 8
      → Finds m
          (find_first (holds space vendor device) (all_slots left b))
          (find_in_buses vendor device left b m)
  unfolding find_in_buses
  Finds-find_in_buses zero b m i h = Finds-pure m none
  Finds-find_in_buses (suc left) b m i h =
      rw (find_first-append (holds space vendor device) (slots_of 32 b 0) (all_slots left (b + 1)))
        (Finds-bind m (find_in_slots vendor device 32 b 0) _
          (Finds-find_in_slots 32 b 0 m i (omega arith) (omega arith))
          (λ ports.
            let n : Machine = record m { ports = ports } in
            elim (Option-cases (find_first (holds space vendor device) (slots_of 32 b 0))) [
              | inl e ↦ rw e (Finds-find_in_buses left (b + 1) n i (omega arith))
              | inr (x, e) ↦ rw e (Finds-pure n (some x))
            ]))

  -- Against a host bridge, for a vendor of 16 bits, the search returns the first slot, in the order
  -- of the buses 0 to 7 and the slots 0 to 31, whose first dword is the device and the vendor, or
  -- none if there is no such slot; it looks at the configuration space and changes nothing else.
  pub pci_find_device-Finds :
      (m : Machine)
      → IsBridge space m.device
      → Finds m
          (find_first (holds space vendor device) (all_slots 8 0))
          (pci_find_device vendor device m)
  unfolding pci_find_device
  pci_find_device-Finds m i = Finds-find_in_buses 8 0 m i (omega arith)
