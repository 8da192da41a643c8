-- ===== src/Pci/Look.antt =====
-- Calls that only print and look at the configuration space: every access writes an address and
-- reads the dword there.
use aimini_os.Base.{
  ℕ, ◌^◌, ◌<◌, ◌≡◌, refl, List, ◌∷◌, Option, some, Bool, true, false, if◌then◌else◌, M, ◌>>=◌,
  then_lem, ◌∙◌,
}
use aimini_os.Console.{Console}
use aimini_os.Machine.{PortEvent, port_in, port_out, Machine, say}
use aimini_os.Pci.{pci_config_address, pci_config_data, pci_config_read_word, pci_config_read_dword}
use aimini_os.Pci.Address.{pci_config_read_word_lem, pci_config_read_dword_lem}

-- The second history is the first with looks in front.
pub data Looks (h : List PortEvent) : List PortEvent → Type 0 where
  no_look : Looks h h
  look :
      {h' : List PortEvent} (a : ℕ)
      → Looks h h'
      → Looks h (port_in 4 pci_config_data ∷ port_out 4 pci_config_address a ∷ h')

pub Looks-trans : {h i j : List PortEvent} → Looks h i → Looks i j → Looks h j
Looks-trans r no_look = r
Looks-trans r (look a s) = look a (Looks-trans r s)

-- A normal return from `m` that printed and looked, and changed nothing else.
pub record IsLook {A : Type 0} (m : Machine) (result : Option (A × Machine)) : Type 0 where
  pub value : A
  pub console : Console
  pub ports : List PortEvent
  pub returns : result ≡ some (value, record m { console = console; ports = ports })
  pub looks : Looks m.ports ports

pub Look-pure : {A : Type 0} (m : Machine) (a : A) → IsLook {A = A} m (some (a, m))
Look-pure m a = record {
  value = a;
  console = m.console;
  ports = m.ports;
  returns = refl;
  looks = no_look;
}

pub Look-say : (m : Machine) (s : List ℕ) → IsLook m (say s m)
Look-say m s = record { value = tt; console = _; ports = _; returns = refl; looks = no_look }

-- One text after another.
pub Look-printed :
    (m : Machine) (console : Console) → IsLook m (some (tt {0}, record m { console = console }))
Look-printed m console = record {
  value = tt;
  console = console;
  ports = m.ports;
  returns = refl;
  looks = no_look;
}

module _ {A B : Type 0} where
  pub Look-bind :
      (m : Machine) (x : M Machine A) (f : A → M Machine B)
      → IsLook m (x m)
      → ((a : A) (n : Machine) → IsLook n (f a n))
      → IsLook m ((x >>= f) m)
  Look-bind m x f q r =
      let s = r q.value (record m { console = q.console; ports = q.ports }) in
      record {
        value = s.value;
        console = s.console;
        ports = s.ports;
        returns = then_lem x f q.returns ∙ s.returns;
        looks = Looks-trans q.looks s.looks;
      }

pub Look-if :
    {A : Type 0} (m : Machine) (b : Bool) (x y : M Machine A)
    → IsLook m (x m)
    → IsLook m (y m)
    → IsLook m ((if b then x else y) m)
Look-if m true x y p q = p
Look-if m false x y p q = q

module _ (bus slot func offset : ℕ) (m : Machine) where
  module _ (b : bus < 2 ^ 8) (s : slot < 2 ^ 5) (f : func < 2 ^ 3) (o : offset < 2 ^ 8) where
    pub Look-read_word : IsLook m (pci_config_read_word bus slot func offset m)
    Look-read_word = record {
      value = _;
      console = m.console;
      ports = _;
      returns = pci_config_read_word_lem bus slot func offset m b s f o;
      looks = look _ no_look;
    }

    pub Look-read_dword : IsLook m (pci_config_read_dword bus slot func offset m)
    Look-read_dword = record {
      value = _;
      console = m.console;
      ports = _;
      returns = pci_config_read_dword_lem bus slot func offset m b s f o;
      looks = look _ no_look;
    }
