-- ===== src/Descriptors/Decode.antt =====
-- What the processor reads from the descriptor tables.
use aimini_os.Base.{
  ℕ, zero, suc, ◌+◌, ◌*◌, ◌/◌, ◌%◌, ◌^◌, ◌≤◌, ◌<◌, ◌≡◌, refl, sym, ◌∙◌, List, Option, some, none,
  arith, bit_and, bit_or, set, length, get_elem?, length-set, get_elem?-set_self, get_elem?-set_ne,
  ◌==◌, if◌then◌else◌, ne→eqb, eq→eqb,
}
use native.Mathlib.Decide.{ℕ_discrete}
use aimini_os.Base.Bits
use aimini_os.Descriptors.{
  GdtEntry, IdtEntry, gdt_entry, gdt_set_gate, idt_set_gate, default_gates, idt_install,
}

-- The processor's reading of a segment descriptor.
abbrev pub base_of : GdtEntry → ℕ
base_of e = e.base_low + 65536 * e.base_middle + 16777216 * e.base_high

abbrev pub limit_of : GdtEntry → ℕ
limit_of e = e.limit_low + 65536 * (e.granularity % 16)

abbrev pub flags_of : GdtEntry → ℕ
flags_of e = e.granularity / 16

base_lem :
    (base limit access gran : ℕ) → base < 2 ^ 32 → base_of (gdt_entry base limit access gran) ≡ base
base_lem base limit access gran h = omega (
  arith,
  Bits.bit_and-low 16 base,
  Bits.bit_and-low 8 (base / 2 ^ 16),
  Bits.bit_and-low 8 (base / 2 ^ 24),
)

-- The low and the high half of the byte do not overlap.
granularity_lem :
    (limit gran : ℕ)
    → gran < 256
    → bit_or (bit_and (limit / 2 ^ 16) 0x0f) (bit_and gran 0xf0)
      ≡ gran / 16 * 16 + limit / 2 ^ 16 % 16
granularity_lem limit gran h =
    let low : bit_and (limit / 2 ^ 16) 0x0f ≡ limit / 2 ^ 16 % 16 =
      Bits.bit_and-low 4 (limit / 2 ^ 16) in
    let high : bit_and gran 0xf0 ≡ gran / 16 * 2 ^ 4 =
      omega (arith, Bits.bit_and-shifted 4 gran 15, Bits.bit_and-low 4 (gran / 16)) in
    rw (low, high) (Bits.bit_or-under 4 (gran / 16) (limit / 2 ^ 16 % 16) (omega arith))

-- A gate of the table that is set with a 32-bit base and limit and a byte of flags reads back: its
-- base, the low 20 bits of its limit, its access byte and the high four bits of its flags; the
-- other gates stay.
pub gdt_set_gate_lem :
    (gdt : List GdtEntry) (num base limit access gran : ℕ)
    → num < length gdt
    → base < 2 ^ 32
    → limit < 2 ^ 32
    → gran < 256
    → (e : GdtEntry) × (get_elem? (gdt_set_gate gdt num base limit access gran) num ≡ some e)
      × (base_of e ≡ base)
      × (limit_of e ≡ limit % 2 ^ 20)
      × (e.access ≡ access)
      × (flags_of e ≡ gran / 16)
      × ((other : ℕ)
          → get_elem? (gdt_set_gate gdt num base limit access gran) other
            ≡ (if num == other then some e else get_elem? gdt other))
unfolding gdt_set_gate
gdt_set_gate_lem gdt num base limit access gran h hb hl hg = (
  gdt_entry base limit access gran,
  get_elem?-set_self gdt num _ h,
  base_lem base limit access gran hb,
  omega (arith, granularity_lem limit gran hg, Bits.bit_and-low 16 limit),
  refl,
  omega (arith, granularity_lem limit gran hg),
  λ other. elim (ℕ_discrete num other) [
    | yes same ↦
        rw
          (
            ← same,
            get_elem?-set_self gdt num (gdt_entry base limit access gran) h,
            eq→eqb num num refl,
          )
          refl
    | no ne ↦
        rw
          (
            get_elem?-set_ne gdt num other (gdt_entry base limit access gran) ne,
            ne→eqb num other ne,
          )
          refl
  ],
)

idt_base_lem :
    (base : ℕ) → base < 2 ^ 32 → bit_and base 0xffff + 65536 * bit_and (base / 65536) 0xffff ≡ base
idt_base_lem base h = omega (arith, Bits.bit_and-low 16 base, Bits.bit_and-low 16 (base / 65536))

-- The handler that the gate of a vector names.
abbrev pub handler_of : Option IdtEntry → ℕ
handler_of none = 0
handler_of (some e) = e.base_low + 65536 * e.base_high

length-default_gates :
    (isr i k : ℕ) (idt : List IdtEntry) → length (default_gates isr i k idt) ≡ length idt
unfolding default_gates idt_set_gate
length-default_gates isr i zero idt = refl
length-default_gates isr i (suc k) idt = length-default_gates isr (i + 1) k _ ∙ length-set idt i _

default_gates-below :
    (isr i k v : ℕ) (idt : List IdtEntry)
    → v < i
    → get_elem? (default_gates isr i k idt) v ≡ get_elem? idt v
unfolding default_gates idt_set_gate
default_gates-below isr i zero v idt h = refl
default_gates-below isr i (suc k) v idt h =
    default_gates-below isr (i + 1) k v _ (omega arith) ∙ get_elem?-set_ne idt i v _ (omega arith)

default_gates-handler :
    (isr i k v : ℕ) (idt : List IdtEntry)
    → isr < 2 ^ 32
    → i ≤ v
    → v < i + k
    → i + k ≤ length idt
    → handler_of (get_elem? (default_gates isr i k idt) v) ≡ isr
unfolding default_gates idt_set_gate
default_gates-handler isr i zero v idt h a b c = absurd (omega arith)
default_gates-handler isr i (suc k) v idt h a b c = elim (ℕ_discrete i v) [
  | yes e ↦
      rw
        (
          default_gates-below isr (i + 1) k v (set idt i _) (omega (arith, e)),
          sym e,
          get_elem?-set_self idt i _ (omega arith),
        )
        (idt_base_lem isr h)
  | no ne ↦
      default_gates-handler isr (i + 1) k v (set idt i _) h (omega (arith, ne)) (omega arith)
        (omega (arith, length-set idt i _))
]

-- After `idt_install` on a table of 256 gates, vector 43 is the network card's handler and every
-- other vector is the default handler, for any 32-bit addresses of the two.
pub idt_install_lem :
    (isr_default rtl8139_handler v : ℕ) (idt : List IdtEntry)
    → length idt ≡ 256
    → isr_default < 2 ^ 32
    → rtl8139_handler < 2 ^ 32
    → v < 256
    → handler_of (get_elem? (idt_install isr_default rtl8139_handler idt) v)
      ≡ (if v == 43 then rtl8139_handler else isr_default)
unfolding idt_install idt_set_gate
idt_install_lem isr card v idt size hi hc hv = elim (ℕ_discrete 43 v) [
  | yes e ↦
      rw
        (
          sym e,
          get_elem?-set_self (default_gates isr 0 256 idt) 43 _
              (omega (arith, length-default_gates isr 0 256 idt)),
        )
        (idt_base_lem card hc)
  | no ne ↦
      rw (get_elem?-set_ne (default_gates isr 0 256 idt) 43 v _ ne, ne→eqb v 43 (λ e. ne (sym e)))
        (default_gates-handler isr 0 256 v idt hi (omega arith) (omega arith) (omega arith))
]
