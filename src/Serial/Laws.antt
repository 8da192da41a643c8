-- ===== src/Serial/Laws.antt =====
-- Sending byte by byte is what the other modules take it for: the bytes of `Console.serial_bytes`.
use aimini_os.Base.{
  ℕ, zero, suc, ◌+◌, ◌%◌, ◌^◌, ◌≡◌, refl, ap, ◌∙◌, Bool, true, false, Option, some, List, [], ◌∷◌,
  ◌++◌, ◌==◌, map, M, skip, if◌then◌else◌, then_lem, u8, Bool-cases, inl, inr, ◌⊎◌,
}
use aimini_os.Console.{serial_bytes}
use aimini_os.Terminal
use aimini_os.Machine.{PortEvent, port_in, port_out, Machine, has, outb}
use aimini_os.Machine.Stage.{writes}
use aimini_os.Serial.{com1, wait_line, put_byte, serial_putc, serial_write_string}

-- The line becomes free in time: one of the next `fuel` reads of its status in a row shows the
-- bit 0x20.
abbrev pub Frees : ℕ → (List PortEvent → ℕ) → List PortEvent → Type 0
Frees zero device h = ⊥
Frees (suc fuel) device h =
    let h' = port_in 1 (com1 + 5) ∷ h in
    (has (device h' % 2 ^ 8) 0x20 ≡ true) ⊎ Frees fuel device h'

-- After every history.
pub record IsLine (fuel : ℕ) (device : List PortEvent → ℕ) : Type 0 where
  pub frees : (h : List PortEvent) → Frees fuel device h

-- A byte on its way out.
abbrev pub out_byte : ℕ → PortEvent
out_byte c = port_out 1 com1 (u8 c)

-- A normal return that left the writes `outs`, the latest first, and changed nothing but the port
-- history.
pub record Puts (m : Machine) (outs : List PortEvent) (result : Option (Unit {0} × Machine))
    : Type 0 where
  pub ports : List PortEvent
  pub returns : result ≡ some (tt, record m { ports = ports })
  pub wrote : writes ports ≡ outs

Puts-wait_line :
    (fuel : ℕ) (m : Machine)
    → Frees fuel m.device m.ports
    → Puts m (writes m.ports) (wait_line fuel m)
unfolding wait_line
Puts-wait_line zero m h = absurd h
Puts-wait_line (suc fuel) m (inl e) = record {
  ports = port_in 1 (com1 + 5) ∷ m.ports;
  returns = rw e refl;
  wrote = refl;
}
Puts-wait_line (suc fuel) m (inr h) =
    let n : Machine = record m { ports = port_in 1 (com1 + 5) ∷ m.ports } in
    let status : ℕ = m.device (port_in 1 (com1 + 5) ∷ m.ports) % 2 ^ 8 in
    let r = Puts-wait_line fuel n h in
    elim (Bool-cases (has status 0x20)) [
      | inl e ↦ record { ports = n.ports; returns = rw e refl; wrote = refl }
      | inr e ↦ record { ports = r.ports; returns = rw e r.returns; wrote = r.wrote }
    ]

outs_lem :
    (c : ℕ) (acc : List ℕ) (base w : List PortEvent)
    → w ≡ map out_byte acc ++ base
    → (if c == Terminal.newline then out_byte b'\r' ∷ out_byte c ∷ w else out_byte c ∷ w)
      ≡ map out_byte (if c == Terminal.newline then b'\r' ∷ c ∷ acc else c ∷ acc) ++ base
outs_lem c acc base w e = elim (Bool-cases (c == Terminal.newline)) [
  | inl y ↦ rw (y, e) refl
  | inr n ↦ rw (n, e) refl
]

module _ (fuel : ℕ) where
  Puts-put_byte :
      (c : ℕ) (m : Machine)
      → IsLine fuel m.device
      → Puts m (out_byte c ∷ writes m.ports) (put_byte fuel c m)
  unfolding put_byte
  Puts-put_byte c m i =
      let w = Puts-wait_line fuel m (i.frees m.ports) in
      record {
        ports = out_byte c ∷ w.ports;
        returns = then_lem (wait_line fuel) (λ _. outb com1 c) w.returns;
        wrote = ap (λ h. out_byte c ∷ h) w.wrote;
      }

  Puts-serial_putc :
      (c : ℕ) (m : Machine)
      → IsLine fuel m.device
      → Puts m
          (if c == Terminal.newline
            then out_byte b'\r' ∷ out_byte c ∷ writes m.ports
            else out_byte c ∷ writes m.ports)
          (serial_putc fuel c m)
  unfolding serial_putc
  Puts-serial_putc c m i =
      let p = Puts-put_byte c m i in
      let n : Machine = record m { ports = p.ports } in
      let q = Puts-put_byte b'\r' n i in
      let next : Bool → M Machine (Unit {0}) = λ b. if b then put_byte fuel b'\r' else skip in
      elim (Bool-cases (c == Terminal.newline)) [
        | inl e ↦ rw e (record {
          ports = q.ports;
          returns = then_lem (put_byte fuel c) (λ _. next true) p.returns ∙ q.returns;
          wrote = q.wrote ∙ ap (λ h. out_byte b'\r' ∷ h) p.wrote;
        })
        | inr e ↦ rw e (record {
          ports = p.ports;
          returns = then_lem (put_byte fuel c) (λ _. next false) p.returns;
          wrote = p.wrote;
        })
      ]

  Puts-behind :
      (s acc : List ℕ) (base : List PortEvent) (m : Machine)
      → IsLine fuel m.device
      → writes m.ports ≡ map out_byte acc ++ base
      → Puts m (map out_byte (serial_bytes s acc) ++ base) (serial_write_string fuel s m)
  unfolding serial_write_string serial_bytes
  Puts-behind [] acc base m i e = record { ports = m.ports; returns = refl; wrote = e }
  Puts-behind (c ∷ s) acc base m i e =
      let p = Puts-serial_putc c m i in
      let acc' : List ℕ = if c == Terminal.newline then b'\r' ∷ c ∷ acc else c ∷ acc in
      let n : Machine = record m { ports = p.ports } in
      let r = Puts-behind s acc' base n i (p.wrote ∙ outs_lem c acc base (writes m.ports) e) in
      record {
        ports = r.ports;
        returns =
            then_lem (serial_putc fuel c) (λ _. serial_write_string fuel s) p.returns ∙ r.returns;
        wrote = r.wrote;
      }

  -- On a line that is free within `fuel` reads after every history, sending a string returns, and
  -- the writes to the port are its bytes in order with a carriage return behind each newline, the
  -- bytes that the console model sends; nothing else is written or changed.
  pub serial_write_string-Puts :
      (s : List ℕ) (m : Machine)
      → IsLine fuel m.device
      → Puts m (map out_byte (serial_bytes s []) ++ writes m.ports) (serial_write_string fuel s m)
  serial_write_string-Puts s m i = Puts-behind s [] (writes m.ports) m i refl
