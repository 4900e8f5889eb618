-- ===== src/Uart/Tests.antt =====
-- The driver of src/uart.c at concrete inputs.
use riscv_baremetal_demo.Base.{◌≡◌, refl, [], ◌∷◌, arith, drop}
use riscv_baremetal_demo.Base.Text.{codes}
use riscv_baremetal_demo.Uart.{Uart, uart_puts, uart_put_hex, uart_put_dec, uint_chars, fill, drain}
use riscv_baremetal_demo.Uart.Text.{dec, hex}
use riscv_baremetal_demo.Uart.Output.{wire, c_str, ready, Sends, uart_puts-Sends}
use riscv_baremetal_demo.Uart.Numbers.{IsNumeral, uart_put_dec-Sends, uart_put_hex-Sends}

-- The transmitter is busy at first, and then empties at every second reading.
abbrev busy_uart : Uart
busy_uart = record {
  lsr = 0 ∷ 0x60 ∷ 0x40 ∷ 0x20 ∷ 0 ∷ 0x21 ∷ 0 ∷ 0x60 ∷ 0x60 ∷ 0x60 ∷ [];
  rbr = b'x' ∷ [];
  lcr = 3;
  sent = [];
}

abbrev dead_uart : Uart
dead_uart = record { lsr = 0 ∷ 0 ∷ []; rbr = b'x' ∷ []; lcr = 3; sent = [] }

numbers :
    (dec 0 ≡ codes "0")
    × (dec 18446744073709551615 ≡ codes "18446744073709551615")
    × (hex 0xbeef ≡ codes "0xbeef")
unfolding dec hex uint_chars fill drain
numbers = (refl, refl, refl)

uart_puts-Sends_example : Sends (codes "a\r\n") busy_uart (uart_puts (codes "a\n") busy_uart)
unfolding wire c_str ready
uart_puts-Sends_example = uart_puts-Sends (codes "a\n") busy_uart (omega arith)

uart_put_dec-Sends_example :
    IsNumeral 10 2026 (dec 2026) × Sends (dec 2026) busy_uart (uart_put_dec 2026 busy_uart)
unfolding dec uint_chars fill drain ready
uart_put_dec-Sends_example = uart_put_dec-Sends 2026 busy_uart (omega arith) (omega arith)

uart_put_hex-Sends_example :
    IsNumeral 16 0xfe (drop 2 (hex 0xfe)) × Sends (hex 0xfe) busy_uart (uart_put_hex 0xfe busy_uart)
unfolding hex uint_chars fill drain ready
uart_put_hex-Sends_example = uart_put_hex-Sends 0xfe busy_uart (omega arith) (omega arith)
