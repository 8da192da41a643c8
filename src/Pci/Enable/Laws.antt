-- ===== src/Pci/Enable/Laws.antt =====
-- What `pci_get_iobase` and `pci_configure_interrupt` write to the configuration space.
use aimini_os.Base.{
  ℕ, ◌-◌, ◌*◌, ◌%◌, ◌/◌, ◌^◌, ◌<◌, ◌≡◌, refl, ap, ◌∙◌, List, ◌∷◌, Option, some, pure, if◌then◌else◌,
  arith, then_lem, sym, bit_and, u8, u16, Bool-cases, inl, inr, ◌⊎◌, ltb→lt, ltb→le,
}
use aimini_os.Base.Bits.{bit_and-shifted, bit_and-low, bit_or-lt}
use aimini_os.Console.{Console}
use aimini_os.Format.{ascii}
use aimini_os.Machine.{PortEvent, port_out, Machine, has}
use aimini_os.Pci.{
  pci_config_address, pci_config_data, pci_class, pci_subclass, pci_command, pci_bar0,
  pci_interrupt_line, pci_config_read_word, pci_config_write_word, pci_config_read_dword, print_hex,
}
use aimini_os.Pci.Address.{
  place_address, asked, answer, pci_config_read_word_lem, pci_config_write_word_lem,
  pci_config_read_dword_lem,
}
use aimini_os.Pci.Look.{Looks, no_look, look, IsLook, Look-printed, Look-bind, Look-read_word}
use aimini_os.Pci.Enable.{
  enabled, use_io_range, enable_device, show_device, show_number, pci_get_iobase,
  pci_configure_interrupt,
}

-- A history with one write of a configuration dword between looks.
pub record WritesConfig (address value : ℕ) (before after : List PortEvent) : Type 0 where
  pub behind : List PortEvent
  pub first : Looks before behind
  pub second :
      Looks
        (port_out 4 pci_config_data value ∷ port_out 4 pci_config_address address ∷ behind)
        after

shown :
    (beyond : Machine → List ℕ) (text : List ℕ) (num : ℕ) (m : Machine)
    → (console : Console) × (show_number beyond text num m
        ≡ some (tt, record m { console = console }))
unfolding print_hex
shown beyond text num m = (_, refl)

pub Look-show_number :
    (beyond : Machine → List ℕ) (text : List ℕ) (num : ℕ) (m : Machine)
    → IsLook m (show_number beyond text num m)
unfolding print_hex
Look-show_number beyond text num m = Look-printed m _

Look-show_device :
    (beyond : Machine → List ℕ) (bus slot : ℕ) (m : Machine)
    → bus < 2 ^ 8
    → slot < 2 ^ 5
    → IsLook m (show_device beyond bus slot m)
unfolding show_device
Look-show_device beyond bus slot m b s =
    Look-bind m (pci_config_read_word bus slot 0 pci_interrupt_line) _
      (Look-read_word bus slot 0 pci_interrupt_line m b s (omega arith) (omega arith))
      (λ line n.
        Look-bind n (show_number beyond (ascii "Device interrupt line: ") (bit_and line 0xff)) _
          (Look-show_number beyond _ _ n)
          (λ _ o.
            Look-bind o (pci_config_read_word bus slot 0 pci_command) _
              (Look-read_word bus slot 0 pci_command o b s (omega arith) (omega arith))
              (λ command q. Look-show_number beyond (ascii "PCI Command register: ") command q)))

enabled_lt : (command : ℕ) → command < 2 ^ 16 → enabled command < 2 ^ 16
enabled_lt command h = bit_or-lt 16 command _ h (omega arith)

base_lem : (bar0 : ℕ) → bar0 < 2 ^ 32 → u16 (bit_and bar0 (2 ^ 32 - 4)) ≡ bar0 % 2 ^ 16 / 4 * 4
base_lem bar0 h = omega (arith, bit_and-shifted 2 bar0 (2 ^ 30 - 1), bit_and-low 30 (bar0 / 4))

module _ (bus slot : ℕ) where
  abbrev pub place_of : ℕ → ℕ
  place_of offset = place_address bus slot 0 offset

  -- The first base address and the command register, as they are read.
  abbrev pub bar0_of : Machine → ℕ
  bar0_of m = answer bus slot 0 pci_bar0 m

  abbrev pub command_of : Machine → ℕ
  command_of m =
      answer bus slot 0 pci_command (record m { ports = asked m (place_of pci_bar0) }) % 2 ^ 16

  -- The base without its two lowest bits is returned, and the command register is written with I/O,
  -- bus mastering and the bit 0x100 added.
  pub record Enables (m : Machine) (result : Option (ℕ × Machine)) : Type 0 where
    pub console : Console
    pub ports : List PortEvent
    pub returns :
        result ≡ some (bar0_of m % 2 ^ 16 / 4 * 4, record m { console = console; ports = ports })
    pub writes : WritesConfig (place_of pci_command) (enabled (command_of m)) m.ports ports

module _ (beyond : Machine → List ℕ) (bus slot : ℕ) (b : bus < 2 ^ 8) (s : slot < 2 ^ 5) where
  enable_device_lem :
      (m : Machine)
      → let command = answer bus slot 0 pci_command m % 2 ^ 16 in
        let address = place_of bus slot pci_command in
        enable_device bus slot m
        ≡ some (
          tt,
          record m {
            ports =
                port_out 4 pci_config_data (enabled command)
                ∷ port_out 4 pci_config_address address
                ∷ asked m address;
          },
        )
  unfolding enable_device
  enable_device_lem m =
      let command : ℕ = answer bus slot 0 pci_command m % 2 ^ 16 in
      then_lem (pci_config_read_word bus slot 0 pci_command)
        (λ c. pci_config_write_word bus slot 0 pci_command (enabled c))
        (pci_config_read_word_lem bus slot 0 pci_command m b s (omega arith) (omega arith))
      ∙ pci_config_write_word_lem bus slot 0 pci_command
          (record m { ports = asked m (place_of bus slot pci_command) }) b s (omega arith)
          (omega arith) (enabled command) (enabled_lt command (omega arith))

  use_io_range-Enables :
      (m : Machine)
      → let n : Machine = record m { ports = asked m (place_of bus slot pci_bar0) } in
        Enables bus slot m (use_io_range beyond bus slot (bar0_of bus slot m) n)
  unfolding use_io_range
  use_io_range-Enables m =
      let n : Machine = record m { ports = asked m (place_of bus slot pci_bar0) } in
      let q =
        Look-show_device beyond bus slot
          (record n {
            ports =
                port_out 4 pci_config_data (enabled (command_of bus slot m))
                ∷ port_out 4 pci_config_address (place_of bus slot pci_command)
                ∷ asked n (place_of bus slot pci_command);
          })
          b s in
      record {
        console = q.console;
        ports = q.ports;
        returns =
            then_lem (enable_device bus slot) _ (enable_device_lem n)
            ∙ (then_lem (show_device beyond bus slot) _ q.returns
                ∙ ap (λ (v : ℕ). some (v, record m { console = q.console; ports = q.ports }))
                    (base_lem (bar0_of bus slot m) (omega arith)));
        writes = record {
          behind = asked n (place_of bus slot pci_command);
          first = look _ (look _ no_look);
          second = q.looks;
        };
      }

  after_bar0 :
      (m : Machine)
      → pci_get_iobase beyond bus slot m
        ≡ (if has (bar0_of bus slot m) 1
              then use_io_range beyond bus slot (bar0_of bus slot m)
              else pure 0)
            (record m { ports = asked m (place_of bus slot pci_bar0) })
  unfolding pci_get_iobase
  after_bar0 m =
      let eb : u8 bus ≡ bus = omega arith in
      let es : u8 slot ≡ slot = omega arith in
      rw (eb, es)
        (then_lem (pci_config_read_dword bus slot 0 pci_bar0)
          (λ bar0. if has bar0 1 then use_io_range beyond bus slot bar0 else pure 0)
          (pci_config_read_dword_lem bus slot 0 pci_bar0 m b s (omega arith) (omega arith)))

  -- For a bus of 8 bits and a slot of 5, the first base address decides. If its bit 0 is set, an
  -- I/O range, the range's start is returned and the device's command register is written, once, as
  -- it was read with the bits 0, 2 and 8 added; all other accesses are looks at the configuration
  -- space. If not, 0 is returned after a single look. Nothing else changes but the console.
  pub pci_get_iobase-Enables :
      (m : Machine)
      → ((bar0_of bus slot m % 2 ≡ 1) × Enables bus slot m (pci_get_iobase beyond bus slot m))
        ⊎ ((bar0_of bus slot m % 2 ≡ 0)
            × (pci_get_iobase beyond bus slot m
                ≡ some (0, record m { ports = asked m (place_of bus slot pci_bar0) })))
  pci_get_iobase-Enables m =
      let low = bit_and-low 1 (bar0_of bus slot m) in
      rw (after_bar0 m) (elim (Bool-cases (has (bar0_of bus slot m) 1)) [
        | inl e ↦ inl (omega (arith, low, ltb→lt _ _ e), rw e (use_io_range-Enables m))
        | inr e ↦ inr (omega (arith, low, ltb→le _ _ e), rw e refl)
      ])

-- For a bus of 8 bits, a slot of 5 and a line of 8, the line is written to the register 0x3c with
-- zero in the upper half of its dword, where the card's latency limits stand; nothing else changes
-- but the console.
pub pci_configure_interrupt_lem :
    (beyond : Machine → List ℕ) (bus slot line : ℕ) (m : Machine)
    → bus < 2 ^ 8
    → slot < 2 ^ 5
    → line < 2 ^ 8
    → (console : Console) × (pci_configure_interrupt beyond bus slot line m
        ≡ some (
          tt,
          record m {
            console = console;
            ports =
                port_out 4 pci_config_data line
                ∷ port_out 4 pci_config_address (place_address bus slot 0 pci_interrupt_line)
                ∷ m.ports;
          },
        ))
unfolding pci_configure_interrupt
pci_configure_interrupt_lem beyond bus slot line m b s l =
    let eb : u8 bus ≡ bus = omega arith in
    let es : u8 slot ≡ slot = omega arith in
    let n : Machine = record m {
      ports =
          port_out 4 pci_config_data line
          ∷ port_out 4 pci_config_address (place_address bus slot 0 pci_interrupt_line)
          ∷ m.ports;
    } in
    let (console, e) = shown beyond (ascii "Configured interrupt line: ") line n in
    (
      console,
      rw (eb, es)
          (then_lem (pci_config_write_word bus slot 0 pci_interrupt_line line) _ (
              pci_config_write_word_lem bus slot 0 pci_interrupt_line m b s (omega arith)
                (omega arith) line (omega arith))
            ∙ e),
    )

-- For a bus of 8 bits, a slot of 5 and a function of 3, reading the class register gives the same
-- word as reading the subclass register, so that their low bytes are both the subclass.
pub pci_class-eq-pci_subclass :
    (bus slot func : ℕ) (m : Machine)
    → bus < 2 ^ 8
    → slot < 2 ^ 5
    → func < 2 ^ 3
    → pci_config_read_word bus slot func pci_class m
      ≡ pci_config_read_word bus slot func pci_subclass m
pci_class-eq-pci_subclass bus slot func m b s f =
    pci_config_read_word_lem bus slot func pci_class m b s f (omega arith)
    ∙ sym (pci_config_read_word_lem bus slot func pci_subclass m b s f (omega arith))
