-- ===== src/Uart.antt =====
-- src/uart.c: the polled ns16550a driver, over a device that answers each read in turn.
pub mod Digits
pub mod Output
pub mod Numbers
pub mod Text
pub mod Input
mod Tests
use riscv_baremetal_demo.Base.{
  ℕ, zero, suc, ◌+◌, ◌/◌, ◌%◌, ◌^◌, bit_and, Option, none, some, List, [], ◌∷◌, ◌++◌, ltb, ◌==◌,
  if◌then◌else◌, get_or, set, replicate,
}
use riscv_baremetal_demo.Base.Text.{codes}

-- UART0 as the driver sees it. `lsr` and `rbr` are the values that the next reads of the line
-- status register and of the receive buffer return; `sent` holds the bytes written to the
-- transmitter holding register, oldest first.
pub record Uart : Type 0 where
  pub lsr : List ℕ
  pub rbr : List ℕ
  pub lcr : ℕ
  pub sent : List ℕ

-- `blocked`: the driver still polls when the device's answers end. `overrun`: a write past the
-- end of a buffer.
pub data Run {ℓ} (A : Type ℓ) : Type ℓ where
  ok : A → Uart → Run A
  blocked overrun : Run A

abbrev pub M {ℓ} : Type ℓ → Type ℓ
M A = Uart → Run A

infixl 5 ◌>>=◌ ◌>>◌
abbrev pub ◌>>=◌ {ℓ κ} : {A : Type ℓ} {B : Type κ} → M A → (A → M B) → M B
◌>>=◌ m f u = elim (m u) [ ok a u' ↦ f a u' | blocked ↦ blocked | overrun ↦ overrun ]

abbrev pub ◌>>◌ {ℓ} : {B : Type ℓ} → M (Unit {0}) → M B → M B
◌>>◌ m k = m >>= λ _. k

abbrev pub pure {ℓ} : {A : Type ℓ} → A → M A
pure a u = ok a u

abbrev pub lsr_thre : ℕ
lsr_thre = 2 ^ 5

abbrev pub lsr_dr : ℕ
lsr_dr = 2 ^ 0

pub uart_init : M (Unit {0})
uart_init u = ok tt (record u { lcr = 0x03 })

-- `while ((*uart_reg(UART_LSR) & mask) == 0) ;` over the readings; what is left of them.
pub poll : ℕ → List ℕ → Option (List ℕ)
poll mask [] = none
poll mask (v ∷ vs) = if bit_and v mask == 0 then poll mask vs else some vs

-- The wait for the transmitter and the write of one byte.
pub transmit : ℕ → M (Unit {0})
transmit c u = elim (poll lsr_thre u.lsr) [
  | none ↦ blocked
  | some vs ↦ ok tt (record u { lsr = vs; sent = u.sent ++ (c ∷ []) })
]

-- The call of itself that `uart_putc` makes is at '\r', where it makes none.
pub uart_putc : ℕ → M (Unit {0})
uart_putc c = if c == 10 then (do transmit 13; transmit c) else transmit c

-- `s` holds the string's bytes; its end stands for a terminating zero.
pub uart_puts : List ℕ → M (Unit {0})
uart_puts [] = pure tt
uart_puts (c ∷ s) = let rest = (do uart_putc c; uart_puts s) in if c == 0 then pure tt else rest

abbrev pub digit_buffer : ℕ
digit_buffer = 24

-- `while (v > 0) { buf[i++] = digits[v % base]; v /= base; }`. The result is `buf` and `i`; `none`
-- is a write past the end of `buf`, so 25 rounds of fuel are never used up before that.
module _ (base : ℕ) (digits : List ℕ) where
  unfoldable pub fill : ℕ → ℕ → List ℕ → ℕ → Option (List ℕ × ℕ)
  fill zero v buf i = none
  fill (suc fuel) v buf i =
      let rest = fill fuel (v / base) (set buf i (get_or digits (v % base) 0)) (i + 1) in
      if v == 0 then some (buf, i) else if ltb i digit_buffer then rest else none

-- `buf[--i]` down to the first character.
unfoldable pub drain : List ℕ → ℕ → List ℕ
drain buf zero = []
drain buf (suc i) = get_or buf i 0 ∷ drain buf i

-- The characters that `uart_put_uint` hands to `uart_putc`, in order; `none` if `buf` is overrun.
-- What the uninitialised `buf` holds does not matter: zeros stand for it.
unfoldable pub uint_chars : ℕ → ℕ → List ℕ → Option (List ℕ)
uint_chars v base digits =
    if v == 0
    then some (b'0' ∷ [])
    else elim (fill base digits (digit_buffer + 1) v (replicate digit_buffer 0) 0) [
      | none ↦ none
      | some (buf, i) ↦ some (drain buf i)
    ]

pub putc_each : List ℕ → M (Unit {0})
putc_each [] = pure tt
putc_each (c ∷ s) = do uart_putc c; putc_each s

pub uart_put_uint : ℕ → ℕ → List ℕ → M (Unit {0})
uart_put_uint v base digits u = elim (uint_chars v base digits) [
  | none ↦ overrun
  | some s ↦ putc_each s u
]

abbrev pub hex_digits : List ℕ
hex_digits = codes "0123456789abcdef"

abbrev pub dec_digits : List ℕ
dec_digits = codes "0123456789"

pub uart_put_hex : ℕ → M (Unit {0})
uart_put_hex v = do uart_puts (codes "0x"); uart_put_uint v 16 hex_digits

pub uart_put_dec : ℕ → M (Unit {0})
uart_put_dec v = uart_put_uint v 10 dec_digits

read_rbr : M ℕ
read_rbr u = elim u.rbr [ [] ↦ blocked | c ∷ cs ↦ ok c (record u { rbr = cs }) ]

wait_dr : M (Unit {0})
wait_dr u = elim (poll lsr_dr u.lsr) [ none ↦ blocked | some vs ↦ ok tt (record u { lsr = vs }) ]

pub uart_getc : M ℕ
uart_getc = do wait_dr; read_rbr
