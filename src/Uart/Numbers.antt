-- ===== src/Uart/Numbers.antt =====
-- `uart_put_dec` and `uart_put_hex`: the shortest numeral of the number goes out.
use riscv_baremetal_demo.Base.{
  ℕ, ◌+◌, ◌*◌, ◌^◌, ◌≤◌, ◌<◌, ◌≡◌, refl, sym, ap, ◌∙◌, ◌≢◌, inl, inr, none, some, List, [], ◌∷◌,
  arith, ◌==◌, Bool-cases, Option-cases, length, drop,
}
use mathlib.Core.Option.{some-injective}
use native.Mathlib.Decide.{dec_le}
use riscv_baremetal_demo.Base.Text.{codes}
use riscv_baremetal_demo.Uart.{
  Uart, uart_puts, uart_put_uint, uart_put_hex, uart_put_dec, uint_chars, hex_digits, dec_digits,
  digit_buffer,
}
use riscv_baremetal_demo.Uart.Text.{uint_text, dec, hex}
use riscv_baremetal_demo.Uart.Digits.{
  digit_value, parse_from, IsDigits, hex-IsDigits, dec-IsDigits, uint_chars-Reads,
}
use riscv_baremetal_demo.Uart.Output.{
  wire, Sends, CanSend, putc_each-Sends, uart_puts-Sends, then-Sends, c_str,
}

-- `s` is the numeral of `v`: it reads back as `v`, it fits the driver's buffer, and no numeral
-- with fewer digits than `s` has could hold `v`.
pub record IsNumeral (base v : ℕ) (s : List ℕ) : Type 0 where
  pub reads : parse_from base 0 s ≡ some v
  pub fits : length s ≤ digit_buffer
  pub shortest : (k : ℕ) → 0 < k → v < base ^ k → length s ≤ k

no_parse :
    (base acc v c : ℕ) (s : List ℕ) → digit_value c ≡ none → parse_from base acc (c ∷ s) ≢ some v
no_parse base acc v c s e h = ground arith

parse_step :
    (base acc v c : ℕ) (s : List ℕ) {d : ℕ}
    → digit_value c ≡ some d
    → parse_from base acc (c ∷ s) ≡ some v
    → parse_from base (acc * base + d) s ≡ some v
parse_step base acc v c s e h = rw (e, parse_from) at h

-- No digit is a newline.
wire-digits : (base acc v : ℕ) (s : List ℕ) → parse_from base acc s ≡ some v → wire s ≡ s
unfolding wire
wire-digits base acc v [] h = refl
wire-digits base acc v (c ∷ s) h = elim (Bool-cases (c == 10)) [
  | inl e ↦ ground arith
  | inr e ↦ elim (Option-cases (digit_value c)) [
    | inl bad ↦ absurd (no_parse base acc v c s bad h)
    | inr good ↦ rw e (
        ap (λ t. c ∷ t)
          (wire-digits base (acc * base + good.0) v s (parse_step base acc v c s good.1 h)))
  ]
]

module _ (base : ℕ) (digits : List ℕ) (big : 1 < base) (spells : IsDigits base digits) where
  shortest_of :
      (v k : ℕ) (s : List ℕ)
      → uint_chars v base digits ≡ some s
      → length s ≤ digit_buffer
      → 0 < k
      → v < base ^ k
      → length s ≤ k
  shortest_of v k s e fits pos small = elim (dec_le k digit_buffer) [
    | yes p ↦
        let (t, e', reads, short) = uint_chars-Reads base digits big spells v k pos small p in
        let same : s ≡ t = some-injective s t (sym e ∙ e') in rw same short
    | no p ↦ omega arith
  ]

  uint_chars-IsNumeral :
      (v : ℕ)
      → v < base ^ digit_buffer
      → (s : List ℕ) × (uint_chars v base digits ≡ some s) × IsNumeral base v s
  uint_chars-IsNumeral v h =
      let (s, e, reads, short) =
        uint_chars-Reads base digits big spells v digit_buffer (omega arith) h (omega arith) in
      (
        s,
        e,
        record { reads = reads; fits = short; shortest = λ k p q. shortest_of v k s e short p q },
      )

  put_uint-Sends :
      (v : ℕ) (s : List ℕ)
      → uint_chars v base digits ≡ some s
      → IsNumeral base v s
      → (u : Uart) → CanSend s u
      → Sends s u (uart_put_uint v base digits u)
  unfolding uart_put_uint
  put_uint-Sends v s e n u c =
      let w = wire-digits base 0 v s n.reads in
      rw (e, uart_put_uint) (rw w at (putc_each-Sends s u (rw w c)))

  uint_text-Sends :
      (v : ℕ) (u : Uart)
      → v < base ^ digit_buffer
      → CanSend (uint_text v base digits) u
      → IsNumeral base v (uint_text v base digits)
        × Sends (uint_text v base digits) u (uart_put_uint v base digits u)
  unfolding uint_text
  uint_text-Sends v u h =
      let (s, e, n) = uint_chars-IsNumeral v h in
      rw (e, uint_text) (λ c. (n, put_uint-Sends v s e n u c))

-- `uart_put_dec` sends the shortest decimal numeral of any 64-bit number, digit by digit, and never
-- writes past the end of its 24-byte buffer, if the transmitter becomes empty often enough.
pub uart_put_dec-Sends :
    (v : ℕ) (u : Uart)
    → v < 2 ^ 64
    → CanSend (dec v) u
    → IsNumeral 10 v (dec v) × Sends (dec v) u (uart_put_dec v u)
unfolding uart_put_dec dec
uart_put_dec-Sends v u h c =
    uint_text-Sends 10 dec_digits (omega arith) dec-IsDigits v u (omega arith) c

-- `uart_put_hex` sends `0x` and then the shortest hexadecimal numeral of any 64-bit number, and
-- never writes past the end of its 24-byte buffer, if the transmitter becomes empty often enough.
pub uart_put_hex-Sends :
    (v : ℕ) (u : Uart)
    → v < 2 ^ 64
    → CanSend (hex v) u
    → IsNumeral 16 v (drop 2 (hex v)) × Sends (hex v) u (uart_put_hex v u)
unfolding uart_put_hex hex wire c_str
uart_put_hex-Sends v u h c =
    let digits = uint_text v 16 hex_digits in
    let text = λ (w : Uart) (k : CanSend digits w).
      uint_text-Sends 16 hex_digits (omega arith) hex-IsDigits v w (omega arith) k in
    let prefix = uart_puts-Sends (codes "0x") u (omega (arith, c)) in
    (
      (text prefix.after (omega (arith, c, prefix.polled))).0,
      then-Sends (uart_puts (codes "0x")) (uart_put_uint v 16 hex_digits) (codes "0x") digits u
          (uart_puts-Sends (codes "0x")) (λ w k. (text w k).1) c,
    )
