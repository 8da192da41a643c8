-- ===== src/Descriptors.antt =====
-- The descriptor tables of gdt.c and idt.c.
pub mod Decode
mod Tests
use aimini_os.Base.{
  ℕ, zero, suc, ◌+◌, ◌*◌, ◌/◌, ◌%◌, ◌^◌, List, [], ◌∷◌, bit_and, bit_or, u8, u16, u32, shr, set,
  replicate,
}

-- `struct gdt_entry`
pub record GdtEntry : Type 0 where
  pub limit_low : ℕ
  pub base_low : ℕ
  pub base_middle : ℕ
  pub access : ℕ
  pub granularity : ℕ
  pub base_high : ℕ

-- `struct idt_entry`; its field `zero` is `always_zero`.
pub record IdtEntry : Type 0 where
  pub base_low : ℕ
  pub selector : ℕ
  pub always_zero : ℕ
  pub flags : ℕ
  pub base_high : ℕ

abbrev pub gdt_entry : ℕ → ℕ → ℕ → ℕ → GdtEntry
gdt_entry base limit access gran = record {
  limit_low = bit_and limit 0xffff;
  base_low = bit_and base 0xffff;
  base_middle = bit_and (shr base 16) 0xff;
  access = access;
  granularity = bit_or (bit_and (shr limit 16) 0x0f) (bit_and gran 0xf0);
  base_high = bit_and (shr base 24) 0xff;
}

unfoldable pub gdt_set_gate : List GdtEntry → ℕ → ℕ → ℕ → ℕ → ℕ → List GdtEntry
gdt_set_gate gdt num base limit access gran = set gdt num (gdt_entry base limit access gran)

-- The table that `gdt_install` hands to `gdt_flush`.
unfoldable pub gdt_install : List GdtEntry → List GdtEntry
gdt_install gdt =
    let gdt = gdt_set_gate gdt 0 0 0 0 0 in
    let gdt = gdt_set_gate gdt 1 0 0xffffffff 0x9a 0xcf in
    let gdt = gdt_set_gate gdt 2 0 0xffffffff 0x92 0xcf in
    let gdt = gdt_set_gate gdt 3 0 0xffffffff 0xfa 0xcf in gdt_set_gate gdt 4 0 0xffffffff 0xf2 0xcf

unfoldable pub idt_set_gate : List IdtEntry → ℕ → ℕ → ℕ → ℕ → List IdtEntry
idt_set_gate idt num base sel flags = set idt num (record {
  base_low = bit_and base 0xffff;
  selector = sel;
  always_zero = 0;
  flags = flags;
  base_high = bit_and (shr base 16) 0xffff;
})

-- The loop of `idt_install` over all gates, from gate `i` on.
unfoldable pub default_gates : ℕ → ℕ → ℕ → List IdtEntry → List IdtEntry
default_gates isr_default i zero idt = idt
default_gates isr_default i (suc k) idt =
    default_gates isr_default (i + 1) k (idt_set_gate idt i isr_default 0x08 0x8e)

abbrev pub idt_entries : ℕ
idt_entries = 256

-- The table that `idt_install` hands to `idt_load`, with the addresses of the two handlers.
unfoldable pub idt_install : ℕ → ℕ → List IdtEntry → List IdtEntry
idt_install isr_default rtl8139_handler idt =
    idt_set_gate (default_gates isr_default 0 idt_entries idt) 43 rtl8139_handler 0x08 0x8e
