-- ===== src/Kernel/Safe.antt =====
-- What holds of the machine between two turns of the main loop, and of every call that returns.
pub mod Sending
pub mod Receiving
pub mod Turns
use aimini_os.Base.{
  ℕ, ◌≡◌, refl, List, Bool, true, false, Option, none, some, M, ◌>>=◌, if◌then◌else◌, skip,
}
use aimini_os.Console.{Console}
use aimini_os.Machine.{PortEvent, Machine, NetDevice, Act, say, demand}
use aimini_os.Machine.Quiet.{IsQuiet}
use aimini_os.Arp.Cache.Unique.{IsUnique}
use aimini_os.Rtl8139.Send.Laws.{IsNic}
use aimini_os.Rtl8139.Send.{debug}

-- What no call of the main loop changes: the addresses, the debug switch, the end of the heap, and
-- where the card and its buffers are.
pub record Fixed : Type 0 where
  pub addresses : NetDevice
  pub debug_off : Bool
  pub heap_end : ℕ
  pub iobase : ℕ
  pub rx_buffer : ℕ
  pub tx_address : ℕ
  pub bus : ℕ
  pub slot : ℕ

abbrev pub fixed_of : Machine → Fixed
fixed_of m = record {
  addresses = m.net_dev;
  debug_off = m.disable_rtl_debug;
  heap_end = m.heap_end;
  iobase = m.nic.iobase;
  rx_buffer = m.nic.rx_buffer;
  tx_address = m.nic.tx_address;
  bus = m.nic.bus;
  slot = m.nic.slot;
}

-- Well-formed statics of the driver, an ARP table without two valid entries for one IP address, and
-- the rest as in `fixed`.
pub record IsSafe (fixed : Fixed) (m : Machine) : Type 0 where
  pub statics : IsNic m.nic
  pub table : IsUnique m.arp_cache
  pub same : fixed_of m ≡ fixed

-- The call faults, or its state is safe.
pub data Ends {A : Type 0} (fixed : Fixed) : Option (A × Machine) → Type 0 where
  faults : Ends fixed none
  ends : {a : A} {m : Machine} → IsSafe fixed m → Ends fixed (some (a, m))

pub Ends-IsSafe :
    {A : Type 0} {fixed : Fixed} {a : A} {m : Machine} → Ends fixed (some (a, m)) → IsSafe fixed m
Ends-IsSafe (ends s) = s

Ends-elim :
    {A B : Type 0} (fixed other : Fixed) (r : Option (A × Machine)) (f : A → M Machine B)
    → Ends fixed r
    → ((a : A) (n : Machine) → IsSafe fixed n → Ends other (f a n))
    → Ends other (elim r as (λ _. Option (B × Machine)) [ none ↦ none | some (a, n) ↦ f a n ])
Ends-elim fixed other none f e g = faults
Ends-elim fixed other (some (a, n)) f e g = g a n (Ends-IsSafe e)

-- One call after another, where the second may change what the first did not.
pub Ends-across :
    {A B : Type 0} (fixed other : Fixed) (m : Machine) (x : M Machine A) (f : A → M Machine B)
    → Ends fixed (x m)
    → ((a : A) (n : Machine) → IsSafe fixed n → Ends other (f a n))
    → Ends other ((x >>= f) m)
Ends-across fixed other m x f e g = Ends-elim fixed other (x m) f e g

module _ (fixed : Fixed) where
  -- Output, accesses to ports and the bytes of the ring do not matter.
  pub Safe-seen :
      (m : Machine) (console : Console) (ports : List PortEvent) (rx_memory : List ℕ)
      → IsSafe fixed m
      → IsSafe fixed (record m { console = console; ports = ports; rx_memory = rx_memory })
  Safe-seen m console ports rx_memory s = record {
    statics = s.statics;
    table = s.table;
    same = s.same;
  }

  pub Safe-printed :
      (m : Machine) (console : Console)
      → IsSafe fixed m
      → IsSafe fixed (record m { console = console })
  Safe-printed m console s = Safe-seen m console m.ports m.rx_memory s

  pub Ends-seen :
      {A : Type 0} (a : A) (m : Machine) (console : Console) (ports : List PortEvent)
      → IsSafe fixed m
      → Ends fixed (some (a, record m { console = console; ports = ports }))
  Ends-seen a m console ports s = ends (Safe-seen m console ports m.rx_memory s)

  -- One call after another.
  pub Ends-bind :
      {A B : Type 0} (m : Machine) (x : M Machine A) (f : A → M Machine B)
      → Ends fixed (x m)
      → ((a : A) (n : Machine) → IsSafe fixed n → Ends fixed (f a n))
      → Ends fixed ((x >>= f) m)
  Ends-bind m x f e g = Ends-across fixed fixed m x f e g

  pub Ends-if :
      {A : Type 0} (m : Machine) (b : Bool) (x y : M Machine A)
      → Ends fixed (x m)
      → Ends fixed (y m)
      → Ends fixed ((if b then x else y) m)
  Ends-if m true x y p q = p
  Ends-if m false x y p q = q

  -- A value that must be there, and what follows if it is.
  pub Ends-demand :
      {A B : Type 0} (m : Machine) (o : Option A) (f : A → M Machine B)
      → ((a : A) → Ends fixed (f a m))
      → Ends fixed ((demand o >>= f) m)
  Ends-demand m none f e = faults
  Ends-demand m (some a) f e = e a

  pub Ends-wanted :
      {A B : Type 0} (m : Machine) (o : Option A) (f : A → M Machine B)
      → ((a : A) → o ≡ some a → Ends fixed (f a m))
      → Ends fixed ((demand o >>= f) m)
  Ends-wanted m none f e = faults
  Ends-wanted m (some a) f e = e a refl

  pub Ends-say : (m : Machine) (text : List ℕ) → IsSafe fixed m → Ends fixed (say text m)
  Ends-say m text s = Ends-seen tt m _ m.ports s

  pub Ends-skip : (m : Machine) → IsSafe fixed m → Ends fixed (skip m)
  Ends-skip m s = ends s

  pub Ends-option :
      {A B : Type 0} (m : Machine) (o : Option A) (f : A → M Machine B) (y : M Machine B)
      → ((a : A) → Ends fixed (f a m))
      → Ends fixed (y m)
      → Ends fixed ((elim o as (λ _. M Machine B) [ none ↦ y | some a ↦ f a ]) m)
  Ends-option m none f y p q = q
  Ends-option m (some a) f y p q = p a

  pub Ends-debug :
      (m : Machine) (act : Act) → IsSafe fixed m → Ends fixed (act m) → Ends fixed (debug act m)
  Ends-debug m act s e = Ends-if m m.disable_rtl_debug skip act (ends s) e

  pub Ends-Quiet :
      {A : Type 0} (m : Machine) (r : Option (A × Machine))
      → IsQuiet m r
      → IsSafe fixed m
      → Ends fixed r
  Ends-Quiet m r q s = rw q.returns (Ends-seen q.value m q.console q.ports s)
