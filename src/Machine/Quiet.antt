-- ===== src/Machine/Quiet.antt =====
-- Calls that only print and read ports, such as those that debugging adds.
use aimini_os.Base.{
  ℕ, ◌≡◌, refl, List, ◌∷◌, Option, some, Bool, true, false, if◌then◌else◌, M, ◌>>=◌, skip, pure,
}
use aimini_os.Console.{Console}
use aimini_os.Machine.{PortEvent, port_in, Machine, say, read_port}

-- The second history is the first with reads in front.
pub data Reads (h : List PortEvent) : List PortEvent → Type 0 where
  none_more : Reads h h
  one_more : {h' : List PortEvent} (width port : ℕ) → Reads h h' → Reads h (port_in width port ∷ h')

pub Reads-trans : {h i j : List PortEvent} → Reads h i → Reads i j → Reads h j
Reads-trans r none_more = r
Reads-trans r (one_more w p s) = one_more w p (Reads-trans r s)

-- A normal return from `m` that printed and read ports, and changed nothing else.
pub record IsQuiet {A : Type 0} (m : Machine) (result : Option (A × Machine)) : Type 0 where
  pub value : A
  pub console : Console
  pub ports : List PortEvent
  pub returns : result ≡ some (value, record m { console = console; ports = ports })
  pub reads : Reads m.ports ports

module _ {A : Type 0} where
  pub Quiet-pure : (m : Machine) (a : A) → IsQuiet {A = A} m (pure a m)
  Quiet-pure m a = record {
    value = a;
    console = m.console;
    ports = m.ports;
    returns = refl;
    reads = none_more;
  }

pub Quiet-say : (m : Machine) (s : List ℕ) → IsQuiet m (say s m)
Quiet-say m s = record { value = tt; console = _; ports = _; returns = refl; reads = none_more }

pub Quiet-read_port : (m : Machine) (w p : ℕ) → IsQuiet m (read_port w p m)
Quiet-read_port m w p = record {
  value = _;
  console = _;
  ports = _;
  returns = refl;
  reads = one_more w p none_more;
}

module _ {A B : Type 0} where
  -- One quiet call after another.
  pub Quiet-bind :
      (m : Machine) (x : M Machine A) (f : A → M Machine B)
      → IsQuiet m (x m)
      → ((a : A) (n : Machine) → IsQuiet n (f a n))
      → IsQuiet m ((x >>= f) m)
  Quiet-bind m x f q r =
      let n : Machine = record m { console = q.console; ports = q.ports } in
      let s = r q.value n in
      record {
        value = s.value;
        console = s.console;
        ports = s.ports;
        returns = rw (q.returns, ◌>>=◌) s.returns;
        reads = Reads-trans q.reads s.reads;
      }

-- What is quiet behind prints and reads is quiet from the start.
pub Quiet-after :
    {A : Type 0} (m : Machine) (console : Console) (ports : List PortEvent)
    {result : Option (A × Machine)}
    → Reads m.ports ports
    → IsQuiet (record m { console = console; ports = ports }) result
    → IsQuiet m result
Quiet-after m console ports r q = record {
  value = q.value;
  console = q.console;
  ports = q.ports;
  returns = q.returns;
  reads = Reads-trans r q.reads;
}

pub Quiet-skip : (m : Machine) → IsQuiet m (skip m)
Quiet-skip m = Quiet-pure m tt

pub Quiet-if :
    {A : Type 0} (m : Machine) (b : Bool) (x y : M Machine A)
    → (b ≡ true → IsQuiet m (x m))
    → (b ≡ false → IsQuiet m (y m))
    → IsQuiet m ((if b then x else y) m)
Quiet-if m true x y p q = p refl
Quiet-if m false x y p q = q refl

pub Quiet-elim :
    {A : Type 0} (m : Machine) (b : Bool) (x y : M Machine A)
    → (b ≡ true → IsQuiet m (x m))
    → (b ≡ false → IsQuiet m (y m))
    → IsQuiet m ((elim b as (λ _. M Machine A) [ true ↦ x | false ↦ y ]) m)
Quiet-elim m true x y p q = p refl
Quiet-elim m false x y p q = q refl
