-- ===== src/Misaligned.antt =====
-- src/misaligned/mis_main.c and mis_trap.S: a misaligned lw and sw, which trap or complete. What
-- the hart does with each access is a parameter.
use riscv_baremetal_demo.Base.{
  ℕ, zero, suc, ◌+◌, ◌-◌, ◌*◌, ◌/◌, ◌%◌, ◌^◌, Bool, ◌&&◌, List, [], ◌∷◌, ◌++◌, ltb, ◌==◌,
  if◌then◌else◌, get_or, set, replicate,
}
use riscv_baremetal_demo.Base.Text.{codes}
use riscv_baremetal_demo.Uart.Text.{dec, hex}
use riscv_baremetal_demo.Probe.{Statement, says, check, perform, Log, run, power_up}
pub mod Verdict
mod Tests

-- The outcome of an access: a trap with mcause, mepc and mtval, or what it loads or leaves.
pub data Load : Type 0 where
  loaded : ℕ → Load
  load_trap : ℕ → ℕ → ℕ → Load

pub data Store : Type 0 where
  stored : List ℕ → Store
  store_trap : ℕ → ℕ → ℕ → Store

-- The hart, for the pc and the address of an access and the bytes of `scratch`; `t1` is the
-- register behind a load that trapped.
pub record Hart : Type 0 where
  pub lw : ℕ → ℕ → List ℕ → Load
  pub sw : ℕ → ℕ → ℕ → List ℕ → Store
  pub t1 : ℕ

-- Where the image stands: `scratch`, the trap entry, and the auipc of each test.
pub record Image : Type 0 where
  pub mhartid : ℕ
  pub trap_entry : ℕ
  pub base : ℕ
  pub lw_window : ℕ
  pub sw_window : ℕ

-- `mis_save` from its word 2 on.
pub record Save : Type 0 where
  pub mcause : ℕ
  pub mepc : ℕ
  pub mtval : ℕ
  pub resume : ℕ
  pub seen : ℕ
  pub value : ℕ

abbrev pub no_save : Save
no_save = record { mcause = 0; mepc = 0; mtval = 0; resume = 0; seen = 0; value = 0 }

-- The trap entry.
unfoldable pub mis_trap_entry : ℕ → ℕ → ℕ → Save → Save
mis_trap_entry cause pc addr s = record s { mcause = cause; mepc = pc; mtval = addr; seen = 1 }

abbrev pub byte_at : List ℕ → ℕ → ℕ
byte_at bytes i = get_or bytes i 0

-- `ref_lw4`, for the bytes from an offset in `scratch` on.
unfoldable pub ref_lw4 : List ℕ → ℕ → ℕ
ref_lw4 bytes i =
    byte_at bytes i
    + byte_at bytes (i + 1) * 2 ^ 8
    + byte_at bytes (i + 2) * 2 ^ 16
    + byte_at bytes (i + 3) * 2 ^ 24

-- The four bytes of a word stored at an offset.
unfoldable pub store_word : List ℕ → ℕ → ℕ → List ℕ
store_word bytes i w =
    set
      (set (set (set bytes i (w % 2 ^ 8)) (i + 1) (w / 2 ^ 8 % 2 ^ 8)) (i + 2) (w / 2 ^ 16 % 2 ^ 8))
      (i + 3) (w / 2 ^ 24 % 2 ^ 8)

abbrev pub pattern_word : ℕ → ℕ
pattern_word i = (0xA1B2C3D4 + i) % 2 ^ 32

-- The aligned stores of the control, from word `i` on, with `left` to go, and their checks.
unfoldable pub fill : ℕ → ℕ → List ℕ → List ℕ
unfolding store_word
fill zero i bytes = bytes
fill (suc left) i bytes = fill left (i + 1) (store_word bytes (4 * i) (pattern_word i))

unfoldable pub fill_checks : ℕ → ℕ → List ℕ → List Statement
unfolding ref_lw4
fill_checks zero i bytes = []
fill_checks (suc left) i bytes =
    check (ref_lw4 bytes (4 * i) == pattern_word i) (codes "aligned access to scratch failed")
    ∷ fill_checks left (i + 1) bytes

abbrev pub filled : List ℕ
filled = fill 8 0 (replicate 64 0)

-- `(unsigned long)(long)(int)`
unfoldable pub sign_extended : ℕ → ℕ
sign_extended w = if ltb w (2 ^ 31) then w else w + (2 ^ 64 - 2 ^ 32)

-- auipc, addi and lw of four bytes each; the label behind them is the resume pc.
unfoldable pub test_lw_impl : Hart → ℕ → ℕ → List ℕ → Save → Save
unfolding mis_trap_entry
test_lw_impl h window addr bytes s =
    let armed = record s { resume = window + 12; seen = 0 } in
    elim (h.lw (window + 8) addr bytes) [
      | loaded v ↦ record armed { value = v }
      | load_trap c pc a ↦ record (mis_trap_entry c pc a armed) { value = h.t1 }
    ]

-- auipc, two addi and sw.
unfoldable pub test_sw_impl : Hart → ℕ → ℕ → ℕ → List ℕ → Save → List ℕ × Save
unfolding mis_trap_entry
test_sw_impl h window addr val bytes s =
    let armed = record s { resume = window + 16; seen = 0 } in
    elim (h.sw (window + 12) addr val bytes) [
      | stored after ↦ (after, armed)
      | store_trap c pc a ↦ (bytes, mis_trap_entry c pc a armed)
    ]

unfoldable pub report : List ℕ → Save → Statement
report name s = says (
    name
    ∷ codes ": seen="
    ∷ dec s.seen
    ∷ codes " mcause="
    ∷ hex s.mcause
    ∷ codes " mepc="
    ∷ hex s.mepc
    ∷ codes " mtval="
    ∷ hex s.mtval
    ∷ codes " resume="
    ∷ hex s.resume
    ∷ codes "\n"
    ∷ [])

-- Subtraction of unsigned longs.
abbrev pub sub64 : ℕ → ℕ → ℕ
sub64 a b = (a + (2 ^ 64 - b)) % 2 ^ 64

-- What main says of the load, and of the store.
unfoldable pub lw_statements : ℕ → List ℕ → Save → List Statement
unfolding ref_lw4 sign_extended
lw_statements addr bytes s =
    if s.seen == 1
    then (says (
          codes "lw TRAPPED: mcause="
          ∷ hex s.mcause
          ∷ codes " (4 = load address misaligned)\n"
          ∷ [])
        ∷ check (s.mcause == 4) (codes "lw trap mcause != 4 (load address misaligned)")
        ∷ check (s.mtval == addr) (codes "lw trap mtval != faulting address")
        ∷ check (s.mepc == sub64 s.resume 8) (codes "lw trap mepc != address of faulting lw")
        ∷ [])
    else (says (
          codes "lw completed transparently: loaded="
          ∷ hex s.value
          ∷ codes " byte-wise reference="
          ∷ hex (ref_lw4 bytes 1)
          ∷ codes "\n"
          ∷ [])
        ∷ check (s.value == sign_extended (ref_lw4 bytes 1))
            (codes "transparent lw value != sign-extended byte-wise reference")
        ∷ check (s.mcause == 0) (codes "unexpected mcause without trap")
        ∷ [])

unfoldable pub sw_statements : ℕ → List ℕ → Save → List Statement
sw_statements addr bytes s =
    if s.seen == 1
    then (says (
          codes "sw TRAPPED: mcause="
          ∷ hex s.mcause
          ∷ codes " (6 = store/AMO address misaligned)\n"
          ∷ [])
        ∷ check (s.mcause == 6) (codes "sw trap mcause != 6 (store/AMO address misaligned)")
        ∷ check (s.mtval == addr) (codes "sw trap mtval != faulting address")
        ∷ check (s.mepc == sub64 s.resume 4) (codes "sw trap mepc != address of faulting sw")
        ∷ [])
    else (says (
          codes "sw completed transparently: bytes read back = "
          ∷ hex (byte_at bytes 2)
          ∷ codes " "
          ∷ hex (byte_at bytes 3)
          ∷ codes " "
          ∷ hex (byte_at bytes 4)
          ∷ codes " "
          ∷ hex (byte_at bytes 5)
          ∷ codes " "
          ∷ codes "(expect 78 56 34 12)\n"
          ∷ [])
        ∷ check
            (byte_at bytes 2 == 0x78
              && (byte_at bytes 3 == 0x56 && (byte_at bytes 4 == 0x34 && byte_at bytes 5 == 0x12)))
            (codes "transparent sw bytes != stored value")
        ∷ check (byte_at bytes 1 == 0xC3) (codes "transparent sw clobbered neighboring byte")
        ∷ [])

-- The lines of main ahead of the tests, with the control.
unfoldable pub opening : Image → List ℕ → List Statement
unfolding fill_checks
opening m bytes =
    says (
      codes "misaligned: misaligned load/store experiment\n"
      ∷ codes "hart mhartid="
      ∷ dec m.mhartid
      ∷ codes "\n"
      ∷ codes "trap vector installed at "
      ∷ hex m.trap_entry
      ∷ codes "\n"
      ∷ [])
    ∷ (fill_checks 8 0 bytes
        ++ (says (
              codes "control: aligned load/store on scratch: ok\n"
              ∷ codes "scratch base="
              ∷ hex m.base
              ∷ codes "\n"
              ∷ [])
            ∷ []))

-- All statements of main, for what the two tests leave.
unfoldable pub statements : Image → List ℕ → Save → List ℕ × Save → List Statement
unfolding opening report lw_statements sw_statements
statements m bytes s (bytes', s') =
    opening m bytes
    ++ (says (codes "lw address=" ∷ hex (m.base + 1) ∷ codes " (base+1, not 4-byte aligned)\n" ∷ [])
        ∷ report (codes "lw") s
        ∷ (lw_statements (m.base + 1) bytes s
            ++ (says (
                  codes "sw address="
                  ∷ hex (m.base + 2)
                  ∷ codes " (base+2, not 4-byte aligned) value=0x12345678\n"
                  ∷ [])
                ∷ report (codes "sw") s'
                ∷ sw_statements (m.base + 2) bytes' s')))

unfoldable pub verdict : Log → Log × Bool
unfolding perform
verdict l = (
  perform
      (says (
        if l.fails == 0
        then codes "RESULT: PASS\n" ∷ codes "done\n" ∷ []
        else codes "RESULT: FAIL ("
          ∷ dec l.fails
          ∷ codes " checks failed)\n"
          ∷ codes "done\n"
          ∷ []))
      l,
  l.fails == 0,
)

unfoldable pub main : Image → Hart → Log × Bool
unfolding fill test_lw_impl test_sw_impl statements run verdict
main m h =
    let s = test_lw_impl h m.lw_window (m.base + 1) filled no_save in
    verdict (
      run (statements m filled s (test_sw_impl h m.sw_window (m.base + 2) 0x12345678 filled s))
        power_up)
