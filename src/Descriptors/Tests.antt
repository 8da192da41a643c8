-- ===== src/Descriptors/Tests.antt =====
-- Tests of the descriptor tables.
use aimini_os.Base.{
  ℕ, ◌/◌, ◌%◌, ◌^◌, ◌≡◌, refl, some, List, ◌==◌, arith, replicate, length-replicate, if◌then◌else◌,
}
use aimini_os.Base.{get_elem?}
use aimini_os.Descriptors.{GdtEntry, IdtEntry, gdt_entry, gdt_set_gate, idt_install}
use aimini_os.Descriptors.Decode.{
  base_of, limit_of, flags_of, handler_of, gdt_set_gate_lem, idt_install_lem,
}

abbrev gdt : List GdtEntry
gdt = replicate 5 (gdt_entry 0 0 0 0)

abbrev idt : List IdtEntry
idt =
    replicate 256 (record { base_low = 0; selector = 0; always_zero = 0; flags = 0; base_high = 0 })

-- The data segment is the whole address space.
flat_test : gdt_entry 0 0xffffffff 0x92 0xcf ≡ record {
  limit_low = 0xffff;
  base_low = 0;
  base_middle = 0;
  access = 0x92;
  granularity = 0xcf;
  base_high = 0;
}
flat_test = refl

gdt_set_gate_lem_example :
    (e : GdtEntry) × (get_elem? (gdt_set_gate gdt 1 0x12345678 0xffffffff 0x9a 0xcf) 1 ≡ some e)
    × (base_of e ≡ 0x12345678)
    × (limit_of e ≡ 0xffffffff % 2 ^ 20)
    × (e.access ≡ 0x9a)
    × (flags_of e ≡ 0xcf / 16)
    × ((other : ℕ)
        → get_elem? (gdt_set_gate gdt 1 0x12345678 0xffffffff 0x9a 0xcf) other
          ≡ (if 1 == other then some e else get_elem? gdt other))
gdt_set_gate_lem_example =
    gdt_set_gate_lem gdt 1 0x12345678 0xffffffff 0x9a 0xcf (omega arith) (omega arith) (omega arith)
      (omega arith)

idt_install_lem_test :
    handler_of (get_elem? (idt_install 0x101000 0x102004 idt) 43)
    ≡ (if 43 == 43 then 0x102004 else 0x101000)
idt_install_lem_test =
    idt_install_lem 0x101000 0x102004 43 idt
      (length-replicate {A = IdtEntry} 256
        (record { base_low = 0; selector = 0; always_zero = 0; flags = 0; base_high = 0 }))
      (omega arith) (omega arith) (omega arith)
