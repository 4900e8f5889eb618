-- ===== src/Plic/Conforming.antt =====
-- What src/plic/plic_main.c relies on of the board: the interrupt controller with one source, the
-- receiver of UART0, whose loopback is synchronous, and the level of its interrupt line. All other
-- sources are quiet.
use riscv_baremetal_demo.Base.{
  ℕ, ◌+◌, ◌/◌, ◌^◌, bit_and, ◌≡◌, Bool, true, false, ◌&&◌, ◌||◌, Option, none, some, List, [], ◌∷◌,
  ltb, ◌==◌, if◌then◌else◌,
}
use riscv_baremetal_demo.Plic.{
  plic_prio, plic_pending, plic_enable, plic_thresh, plic_claim, uart_irq, u_thr, u_ier, u_mcr,
  u_lsr, ier_rdi, mcr_loop, Access, rd, wr, said, Board,
}

pub record View : Type 0 where
  pub prio : ℕ
  pub enable : ℕ
  pub thresh : ℕ
  pub pending : Bool
  pub claimed : Bool
  pub mcr : ℕ
  pub ier : ℕ
  pub rx : Option ℕ

-- The line of the source is up while a byte waits and its interrupt is enabled.
unfoldable pub line : View → Bool
line v = elim v.rx [ none ↦ false | some b ↦ if bit_and v.ier ier_rdi == 0 then false else true ]

-- The pending bit follows the line when it changes.
unfoldable pub follow : View → View
unfolding line
follow v = record v { pending = line v }

abbrev pub in_loop : View → Bool
in_loop v = if bit_and v.mcr mcr_loop == 0 then false else true

-- The source that a claim returns.
unfoldable pub best : View → ℕ
best v =
    if v.pending
    then (if v.claimed
        then 0
        else (if bit_and (v.enable / 2 ^ uart_irq) 1 == 0
            then 0
            else (if ltb v.thresh v.prio then uart_irq else 0)))
    else 0

unfoldable pub answer : View → ℕ → ℕ
unfolding best
answer v addr =
    if addr == plic_prio uart_irq
    then v.prio
    else if addr == plic_pending
    then (if v.pending then 2 ^ uart_irq else 0)
    else if addr == plic_enable
    then v.enable
    else if addr == plic_thresh
    then v.thresh
    else if addr == plic_claim
    then best v
    else if addr == u_thr
    then (elim v.rx [ none ↦ 0 | some b ↦ b ])
    else if addr == u_ier
    then v.ier
    else if addr == u_mcr
    then v.mcr
    else if addr == u_lsr
    then 0x60 + (elim v.rx [ none ↦ 0 | some b ↦ 1 ])
    else 0

-- What text does that goes out: it may set the pending bit again while the line is up.
unfoldable pub disturb : Bool → View → View
unfolding line
disturb again v = record v { pending = v.pending || again && line v }

-- A byte sent, or a text with `b` as its last byte.
unfoldable pub transmit : Bool → ℕ → View → View
unfolding follow disturb
transmit again b v = if in_loop v then follow (record v { rx = some b }) else disturb again v

unfoldable pub after_read : ℕ → View → View
unfolding best follow
after_read addr v =
    if addr == plic_claim
    then (if best v == uart_irq then record v { pending = false; claimed = true } else v)
    else (if addr == u_thr then follow (record v { rx = none }) else v)

unfoldable pub after_write : Bool → ℕ → ℕ → View → View
unfolding follow transmit
after_write again addr x v =
    if addr == plic_prio uart_irq
    then record v { prio = x }
    else if addr == plic_enable
    then record v { enable = x }
    else if addr == plic_thresh
    then record v { thresh = x }
    else if addr == plic_claim
    then (if x == uart_irq then record v { claimed = false } else v)
    else if addr == u_thr
    then transmit again x v
    else if addr == u_ier
    then follow (record v { ier = x })
    else if addr == u_mcr
    then record v { mcr = x }
    else v

-- The state after the accesses so far, from `start`; `again` says which texts set the bit again.
unfoldable pub replay : View → (List Access → Bool) → List Access → View
unfolding after_read after_write transmit
replay start again [] = start
replay start again (rd addr x ∷ log) = after_read addr (replay start again log)
replay start again (wr addr x ∷ log) = after_write (again log) addr x (replay start again log)
replay start again (said ∷ log) = transmit (again log) b'\n' (replay start again log)

-- The registers behind `uart_init`, with whatever is enabled and a byte that may wait already.
abbrev pub fresh : ℕ → ℕ → Option ℕ → View
fresh enable thresh rx = record {
  prio = 0;
  enable = enable;
  thresh = thresh;
  pending = false;
  claimed = false;
  mcr = 0;
  ier = 0;
  rx = rx;
}

-- What the program does not set: what is enabled and waits ahead of it, and which texts set the
-- pending bit again.
pub record Setup : Type 0 where
  pub enable : ℕ
  pub thresh : ℕ
  pub rx : Option ℕ
  pub again : List Access → Bool

pub record Conforms (board : Board) : Type 0 where
  pub setup : Setup
  pub answers :
      (log : List Access) (addr : ℕ)
      → board log addr
        ≡ answer (replay (fresh setup.enable setup.thresh setup.rx) setup.again log) addr
