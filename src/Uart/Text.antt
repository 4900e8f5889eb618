-- ===== src/Uart/Text.antt =====
-- The text that a program prints, as the characters that it hands to the driver of src/uart.c.
use riscv_baremetal_demo.Base.{ℕ, none, some, List, [], ◌++◌}
use riscv_baremetal_demo.Base.Text.{codes}
use riscv_baremetal_demo.Uart.{uint_chars, hex_digits, dec_digits}

-- The characters of `uart_put_uint`. A 64-bit number never overruns the buffer.
unfoldable pub uint_text : ℕ → ℕ → List ℕ → List ℕ
uint_text v base digits = elim (uint_chars v base digits) [ none ↦ [] | some s ↦ s ]

unfoldable pub dec : ℕ → List ℕ
unfolding uint_text
dec v = uint_text v 10 dec_digits

unfoldable pub hex : ℕ → List ℕ
unfolding uint_text
hex v = codes "0x" ++ uint_text v 16 hex_digits
