-- ===== src/Pci/Place.antt =====
-- Whatever answers at the configuration ports, the search for a device returns, with a place of a
-- bus of 8 bits and a slot of 5.
use aimini_os.Base.{
  ℕ, zero, suc, ◌+◌, ◌^◌, ◌<◌, ◌≤◌, ◌≡◌, refl, ◌∙◌, Bool, true, false, Option, none, some, List,
  ◌==◌, M, ◌>>=◌, arith, pure, then_lem,
}
use aimini_os.Console.{Console}
use aimini_os.Machine.{PortEvent, Machine}
use aimini_os.Pci.{pci_vendor_id, pci_device_id, pci_config_read_word}
use aimini_os.Pci.Look.{
  Looks, no_look, Looks-trans, IsLook, Look-pure, Look-bind, Look-if, Look-read_word,
}
use aimini_os.Pci.Scan.{pci_is_device, find_in_slots, find_in_buses, pci_find_device}

-- A place that the search returns has a bus of 8 bits and a slot of 5.
abbrev pub InRange : Option (ℕ × ℕ) → Type 0
InRange none = Unit
InRange (some (b, s)) = (b < 2 ^ 8) × (s < 2 ^ 5)

-- A normal return that looked, with a place in range.
pub record IsPlace (m : Machine) (result : Option (Option (ℕ × ℕ) × Machine)) : Type 0 where
  pub value : Option (ℕ × ℕ)
  pub console : Console
  pub ports : List PortEvent
  pub returns : result ≡ some (value, record m { console = console; ports = ports })
  pub looks : Looks m.ports ports
  pub place : InRange value

Place-pure : (m : Machine) (o : Option (ℕ × ℕ)) → InRange o → IsPlace m (some (o, m))
Place-pure m o h = record {
  value = o;
  console = m.console;
  ports = m.ports;
  returns = refl;
  looks = no_look;
  place = h;
}

-- A search behind a call that looked.
Place-behind :
    (m : Machine) (console : Console) (ports : List PortEvent)
    {result last : Option (Option (ℕ × ℕ) × Machine)}
    → Looks m.ports ports
    → result ≡ last
    → IsPlace (record m { console = console; ports = ports }) last
    → IsPlace m result
Place-behind m console ports looks e r = record {
  value = r.value;
  console = r.console;
  ports = r.ports;
  returns = e ∙ r.returns;
  looks = Looks-trans looks r.looks;
  place = r.place;
}

Place-bind :
    {A : Type 0} (m : Machine) (x : M Machine A) (f : A → M Machine (Option (ℕ × ℕ)))
    → IsLook m (x m)
    → ((a : A) (n : Machine) → IsPlace n (f a n))
    → IsPlace m ((x >>= f) m)
Place-bind m x f q r =
    Place-behind m q.console q.ports q.looks (then_lem x f q.returns)
      (r q.value (record m { console = q.console; ports = q.ports }))

Place-if :
    (m : Machine) (b : Bool) (x y : M Machine (Option (ℕ × ℕ)))
    → IsPlace m (x m)
    → IsPlace m (y m)
    → IsPlace m ((elim b as (λ _. M Machine (Option (ℕ × ℕ))) [ true ↦ x | false ↦ y ]) m)
Place-if m true x y p q = p
Place-if m false x y p q = q

-- The place that was found, or a second search.
abbrev found_or : M Machine (Option (ℕ × ℕ)) → Option (ℕ × ℕ) → M Machine (Option (ℕ × ℕ))
found_or y o = elim o [ some place ↦ pure (some place) | none ↦ y ]

Place-found_or :
    (m : Machine) (o : Option (ℕ × ℕ)) (y : M Machine (Option (ℕ × ℕ)))
    → InRange o
    → IsPlace m (y m)
    → IsPlace m (found_or y o m)
Place-found_or m none y h q = q
Place-found_or m (some (b, s)) y h q = Place-pure m (some (b, s)) h

Place-next :
    (m : Machine) (x y : M Machine (Option (ℕ × ℕ)))
    → IsPlace m (x m)
    → ((n : Machine) → IsPlace n (y n))
    → IsPlace m ((x >>= found_or y) m)
Place-next m x y p q =
    let n : Machine = record m { console = p.console; ports = p.ports } in
    Place-behind m p.console p.ports p.looks (then_lem x (found_or y) p.returns)
      (Place-found_or n p.value y p.place (q n))

module _ (vendor device : ℕ) where
  Look-pci_is_device :
      (b s : ℕ) (m : Machine) → b < 2 ^ 8 → s < 2 ^ 5 → IsLook m (pci_is_device vendor device b s m)
  unfolding pci_is_device
  Look-pci_is_device b s m h k =
      Look-bind m (pci_config_read_word b s 0 pci_vendor_id) _
        (Look-read_word b s 0 pci_vendor_id m h k (omega arith) (omega arith))
        (λ v n.
          Look-if n (v == vendor) _ (pure false)
            (Look-bind n (pci_config_read_word b s 0 pci_device_id) _
              (Look-read_word b s 0 pci_device_id n h k (omega arith) (omega arith))
              (λ d o. Look-pure o (d == device)))
            (Look-pure n false))

  Place-find_in_slots :
      (left b s : ℕ) (m : Machine)
      → b < 2 ^ 8
      → s + left ≤ 2 ^ 5
      → IsPlace m (find_in_slots vendor device left b s m)
  unfolding find_in_slots
  Place-find_in_slots zero b s m h k = Place-pure m none tt
  Place-find_in_slots (suc left) b s m h k =
      Place-bind m (pci_is_device vendor device b s) _ (Look-pci_is_device b s m h (omega arith))
        (λ here n.
          Place-if n here (pure (some (b, s))) (find_in_slots vendor device left b (s + 1))
            (Place-pure n (some (b, s)) (h, omega arith))
            (Place-find_in_slots left b (s + 1) n h (omega arith)))

  Place-find_in_buses :
      (left b : ℕ) (m : Machine)
      → b + left ≤ 2 ^ 8
      → IsPlace m (find_in_buses vendor device left b m)
  unfolding find_in_buses
  Place-find_in_buses zero b m h = Place-pure m none tt
  Place-find_in_buses (suc left) b m h =
      Place-next m (find_in_slots vendor device 32 b 0) (find_in_buses vendor device left (b + 1))
        (Place-find_in_slots 32 b 0 m (omega arith) (omega arith))
        (λ n. Place-find_in_buses left (b + 1) n (omega arith))

  pub Place-pci_find_device : (m : Machine) → IsPlace m (pci_find_device vendor device m)
  unfolding pci_find_device
  Place-pci_find_device m = Place-find_in_buses 8 0 m (omega arith)
