-- ===== src/Uart/Digits.antt =====
-- `uart_put_uint`: the digits fit the buffer, and read back as the number.
use riscv_baremetal_demo.Base.{
  ℕ, zero, suc, ◌+◌, ◌-◌, ◌*◌, ◌/◌, ◌%◌, ◌^◌, ◌≤◌, ◌<◌, ◌≡◌, refl, ap, ap₂, ◌∙◌, Bool, true, false,
  Option, none, some, List, [], ◌∷◌, arith, leb, ◌==◌, if◌then◌else◌, lt→ltb, length, get_or, set,
  replicate, length-set, length-replicate, get_or-set_self, get_or-set_ne, table_passes,
  table_passes_at,
}
use native.Mathlib.Numerals.{add-one}
use native.Mathlib.Nat.{mod-lt, div-add-mod', div-lt_iff_lt-mul, pow-suc, pow-zero}
use riscv_baremetal_demo.Uart.{fill, drain, uint_chars, hex_digits, dec_digits, digit_buffer}

-- The value of a digit character, in either case of the code's digit strings.
abbrev pub digit_value : ℕ → Option ℕ
digit_value c =
    if leb 48 c
    then (if leb c 57
        then some (c - 48)
        else (if leb 97 c then (if leb c 102 then some (c - 87) else none) else none))
    else none

-- Reading a numeral from the left.
abbrev pub parse_from : ℕ → ℕ → List ℕ → Option ℕ
parse_from base acc [] = some acc
parse_from base acc (c ∷ s) = elim (digit_value c) [
  | none ↦ none
  | some d ↦ parse_from base (acc * base + d) s
]

-- A digit string spells the digits below `base`.
abbrev pub IsDigits : ℕ → List ℕ → Type 0
IsDigits base digits = (d : ℕ) → d < base → digit_value (get_or digits d 0) ≡ some d

is_some_of : Option ℕ → ℕ → Bool
is_some_of none d = false
is_some_of (some e) d = e == d

is_some_of_lem : (o : Option ℕ) (d : ℕ) → is_some_of o d ≡ true → o ≡ some d
unfolding is_some_of
is_some_of_lem none d h = ground arith
is_some_of_lem (some e) d h = ground arith

hex-table : table_passes (λ d. is_some_of (digit_value (get_or hex_digits d 0)) d) 16 ≡ true
unfolding table_passes is_some_of
hex-table = refl

dec-table : table_passes (λ d. is_some_of (digit_value (get_or dec_digits d 0)) d) 10 ≡ true
unfolding table_passes is_some_of
dec-table = refl

pub hex-IsDigits : IsDigits 16 hex_digits
hex-IsDigits d h = is_some_of_lem _ d (table_passes_at _ 16 d h hex-table)

pub dec-IsDigits : IsDigits 10 dec_digits
dec-IsDigits d h = is_some_of_lem _ d (table_passes_at _ 10 d h dec-table)

-- A write at or above `i` does not show in the characters below `i`.
drain-set : (buf : List ℕ) (i j c : ℕ) → i ≤ j → drain (set buf j c) i ≡ drain buf i
unfolding drain
drain-set buf zero j c h = refl
drain-set buf (suc i) j c h =
    ap₂ ◌∷◌ (get_or-set_ne buf j i c 0 (omega arith)) (drain-set buf i j c (omega arith))

drain-push :
    (buf : List ℕ) (i c : ℕ) → i < length buf → drain (set buf i c) (i + 1) ≡ c ∷ drain buf i
unfolding drain
drain-push buf i c h =
    rw add-one (ap₂ ◌∷◌ (get_or-set_self buf i c 0 h) (drain-set buf i i c (omega arith)))

suc-==-zero : (v : ℕ) → (suc v == 0) ≡ false
suc-==-zero v = ground arith

length-drain : (buf : List ℕ) (i : ℕ) → length (drain buf i) ≡ i
unfolding drain
length-drain buf zero = refl
length-drain buf (suc i) = ap suc (length-drain buf i)

-- What the loop leaves, started with `v` to print behind the `i` characters in `buf`.
record Filled (base v i k : ℕ) (buf : List ℕ) (r : Option (List ℕ × ℕ)) : Type 0 where
  out : List ℕ
  count : ℕ
  returns : r ≡ some (out, count)
  reads : parse_from base 0 (drain out count) ≡ parse_from base v (drain buf i)
  short : count ≤ i + k

module _ (base : ℕ) (digits : List ℕ) (big : 1 < base) (spells : IsDigits base digits) where
  parse-digit :
      (v : ℕ) (s : List ℕ)
      → parse_from base (v / base) (get_or digits (v % base) 0 ∷ s) ≡ parse_from base v s
  parse-digit v s =
      rw (spells (v % base) (mod-lt v (omega arith)), parse_from)
        (ap (λ n. parse_from base n s) (div-add-mod' v base))

  fill-Filled :
      (fuel v i k : ℕ) (buf : List ℕ)
      → v < base ^ k
      → i + k ≤ digit_buffer
      → k < fuel
      → length buf ≡ digit_buffer
      → Filled base v i k buf (fill base digits fuel v buf i)
  unfolding fill drain
  fill-Filled zero v i k buf small fits enough size = absurd (omega arith)
  fill-Filled (suc fuel) zero i k buf small fits enough size = record {
    out = buf;
    count = i;
    returns = refl;
    reads = refl;
    short = omega arith;
  }
  fill-Filled (suc fuel) (suc v) i zero buf small fits enough size =
      absurd (omega (arith, pow-zero base))
  fill-Filled (suc fuel) (suc v) i (suc k) buf small fits enough size =
      let c = get_or digits (suc v % base) 0 in
      let rest =
        fill-Filled fuel (suc v / base) (i + 1) k (set buf i c)
          ((div-lt_iff_lt-mul (omega arith)).1 (omega (arith, pow-suc base k))) (omega arith)
          (omega arith) (length-set buf i c ∙ size) in
      record {
        out = rest.out;
        count = rest.count;
        returns = rw (suc-==-zero v, lt→ltb i digit_buffer (omega arith)) rest.returns;
        reads =
            rest.reads
            ∙ ap (parse_from base (suc v / base)) (drain-push buf i c (omega arith))
            ∙ parse-digit (suc v) (drain buf i);
        short = omega (arith, rest.short);
      }

  pub uint_chars-Reads :
      (v k : ℕ)
      → 0 < k
      → v < base ^ k
      → k ≤ digit_buffer
      → (s : List ℕ) × (uint_chars v base digits ≡ some s)
        × (parse_from base 0 s ≡ some v)
        × (length s ≤ k)
  unfolding uint_chars drain
  uint_chars-Reads zero k pos small fits = (b'0' ∷ [], refl, ap some (omega arith), pos)
  uint_chars-Reads (suc v) k pos small fits =
      let f =
        fill-Filled (digit_buffer + 1) (suc v) 0 k (replicate digit_buffer 0) small (omega arith)
          (omega arith) (length-replicate {A = ℕ} digit_buffer 0) in
      (
        drain f.out f.count,
        rw (suc-==-zero v) (rw f.returns),
        f.reads,
        omega (arith, length-drain f.out f.count, f.short),
      )
