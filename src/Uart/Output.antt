-- ===== src/Uart/Output.antt =====
-- What the driver's output functions put on the wire.
use riscv_baremetal_demo.Base.{
  ℕ, suc, ◌+◌, ◌≤◌, ◌<◌, bit_and, ◌≡◌, refl, sym, ap, ◌∙◌, inl, inr, some, List, [], ◌∷◌, ◌++◌,
  arith, ◌==◌, if◌then◌else◌, ==_iff, Bool-cases, length, length-append,
}
use native.Mathlib.Nat.{add-zero}
use mathlib.Core.Path.{fun_ext}
use mathlib.Core.List.{append-nil, append_assoc}
use riscv_baremetal_demo.Uart.{
  Uart, Run, ok, blocked, overrun, M, ◌>>◌, lsr_thre, poll, transmit, uart_putc, uart_puts,
  putc_each,
}

-- The bytes on the wire for one character and for a text: a newline is sent as CR LF.
abbrev pub wire_char : ℕ → List ℕ
wire_char c = if c == 10 then 13 ∷ 10 ∷ [] else c ∷ []

unfoldable pub wire : List ℕ → List ℕ
wire [] = []
wire (c ∷ s) = wire_char c ++ wire s

-- A C string ends before its first zero.
unfoldable pub c_str : List ℕ → List ℕ
c_str [] = []
c_str (c ∷ s) = if c == 0 then [] else c ∷ c_str s

-- How many of the coming status readings have a bit of `mask` set.
unfoldable pub ready : ℕ → List ℕ → ℕ
ready mask [] = 0
ready mask (v ∷ vs) = if bit_and v mask == 0 then ready mask vs else suc (ready mask vs)

-- A call that returned after sending exactly `bytes`, each behind a reading of its own that
-- showed the transmitter empty.
pub record Sends (bytes : List ℕ) (u : Uart) (r : Run (Unit {0})) : Type 0 where
  pub after : Uart
  pub returns : r ≡ ok tt after
  pub on_wire : after.sent ≡ u.sent ++ bytes
  pub polled : ready lsr_thre after.lsr + length bytes ≡ ready lsr_thre u.lsr
  pub input_kept : after.rbr ≡ u.rbr
  pub framing_kept : after.lcr ≡ u.lcr

abbrev pub CanSend : List ℕ → Uart → Type 0
CanSend bytes u = length bytes ≤ ready lsr_thre u.lsr

pub poll-some :
    (mask : ℕ) (vs : List ℕ)
    → 0 < ready mask vs
    → (rest : List ℕ) × (poll mask vs ≡ some rest) × (ready mask rest + 1 ≡ ready mask vs)
unfolding poll ready
poll-some mask [] h = absurd (omega arith)
poll-some mask (v ∷ vs) h = elim (Bool-cases (bit_and v mask == 0)) [
  | inl e ↦ rw e (poll-some mask vs (rw e at h))
  | inr e ↦ rw e (vs, refl, omega arith)
]

transmit-Sends : (c : ℕ) (u : Uart) → CanSend (c ∷ []) u → Sends (c ∷ []) u (transmit c u)
unfolding transmit
transmit-Sends c u h =
    let (rest, e, n) = poll-some lsr_thre u.lsr h in
    record {
      after = record u { lsr = rest; sent = u.sent ++ (c ∷ []) };
      returns = rw (e, transmit) refl;
      on_wire = refl;
      polled = n;
      input_kept = refl;
      framing_kept = refl;
    }

pub >>-ok {ℓ} :
    {B : Type ℓ} (m : M (Unit {0})) (k : M B) (u : Uart) {v : Uart}
    → m u ≡ ok tt v
    → (m >> k) u ≡ k v
>>-ok {B} m k u e =
    ap {B = Run B} (λ r. elim r [ ok a u' ↦ k u' | blocked ↦ blocked | overrun ↦ overrun ]) e

-- Two calls in a row.
pub then-Sends :
    (m k : M (Unit {0})) (a b : List ℕ) (u : Uart)
    → ((v : Uart) → CanSend a v → Sends a v (m v))
    → ((v : Uart) → CanSend b v → Sends b v (k v))
    → CanSend (a ++ b) u
    → Sends (a ++ b) u ((m >> k) u)
then-Sends m k a b u hm hk h =
    let first = hm u (omega (arith, length-append a b)) in
    let second = hk first.after (omega (arith, length-append a b, first.polled)) in
    record {
      after = second.after;
      returns = >>-ok m k u first.returns ∙ second.returns;
      on_wire = second.on_wire ∙ ap (λ s. s ++ b) first.on_wire ∙ append_assoc u.sent a b;
      polled = omega (arith, length-append a b, first.polled, second.polled);
      input_kept = second.input_kept ∙ first.input_kept;
      framing_kept = second.framing_kept ∙ first.framing_kept;
    }

wire_char-Sends :
    (c : ℕ) (u : Uart) → CanSend (wire_char c) u → Sends (wire_char c) u (uart_putc c u)
unfolding uart_putc
wire_char-Sends c u h = elim (Bool-cases (c == 10)) [
  | inl e ↦ rw e (
      let c10 : c ≡ 10 = (==_iff c 10).0 e in
      rw c10 (
        then-Sends (transmit 13) (transmit 10) (13 ∷ []) (10 ∷ []) u (transmit-Sends 13)
          (transmit-Sends 10) (rw e at h)))
  | inr e ↦ rw e (transmit-Sends c u (rw e at h))
]

pub putc_each-Sends :
    (s : List ℕ) (u : Uart) → CanSend (wire s) u → Sends (wire s) u (putc_each s u)
unfolding putc_each wire
putc_each-Sends [] u h = record {
  after = u;
  returns = refl;
  on_wire = sym (append-nil u.sent);
  polled = add-zero _;
  input_kept = refl;
  framing_kept = refl;
}
putc_each-Sends (c ∷ s) u h =
    then-Sends (uart_putc c) (putc_each s) (wire_char c) (wire s) u (wire_char-Sends c)
      (putc_each-Sends s) h

uart_puts-putc_each : (s : List ℕ) (u : Uart) → uart_puts s u ≡ putc_each (c_str s) u
unfolding uart_puts putc_each c_str
uart_puts-putc_each [] u = refl
uart_puts-putc_each (c ∷ s) u = elim (Bool-cases (c == 0)) [
  | inl e ↦ rw e refl
  | inr e ↦ rw e (ap (λ k. (uart_putc c >> k) u) (fun_ext (uart_puts-putc_each s)))
]

-- `uart_puts` sends the bytes of the string before its first zero, newlines as CR LF, in order and
-- nothing else, uses up one ready status reading for each byte, and leaves the input and the
-- framing alone, if the transmitter becomes empty at least as often as there are bytes to send.
pub uart_puts-Sends :
    (s : List ℕ) (u : Uart) → CanSend (wire (c_str s)) u → Sends (wire (c_str s)) u (uart_puts s u)
uart_puts-Sends s u h = rw (uart_puts-putc_each s u) (putc_each-Sends (c_str s) u h)
