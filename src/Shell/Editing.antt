-- ===== src/Shell/Editing.antt =====
-- `read_line`: the buffer is never overrun, and holds what an editor over texts would hold.
use riscv_baremetal_demo.Base.{
  ℕ, zero, suc, ◌+◌, ◌-◌, ◌≤◌, ◌<◌, ◌≡◌, refl, ap, ◌∙◌, ◌≢◌, inl, inr, Bool, false, ◌||◌, List, [],
  ◌∷◌, ◌++◌, arith, ltb, ◌==◌, if◌then◌else◌, Bool-cases, length, set, take, length-set,
}
use native.Mathlib.Numerals.{add-one}
use riscv_baremetal_demo.Base.Text.{codes}
use riscv_baremetal_demo.Uart.Output.{c_str}
use riscv_baremetal_demo.Shell.{Line, line_max, Key, more, read_key}

-- The static array has its size, and the length leaves room for the zero.
pub record IsValid (l : Line) : Type 0 where
  pub size : length l.buf ≡ line_max
  pub room : l.len < line_max

abbrev pub is_enter : ℕ → Bool
is_enter c = c == 13 || c == 10

abbrev pub but_last : List ℕ → List ℕ
but_last [] = []
but_last (x ∷ []) = []
but_last (x ∷ y ∷ s) = x ∷ but_last (y ∷ s)

-- What a key that does not end the line does to the text: delete erases the last character, other
-- control characters and what does not fit are ignored.
abbrev pub edit : List ℕ → ℕ → List ℕ
edit s c =
    if c == 0x7f || c == 0x08
    then but_last s
    else if ltb c 0x20
    then s
    else if ltb (length s) (line_max - 1)
    then s ++ (c ∷ [])
    else s

unfoldable pub edit_all : List ℕ → List ℕ → List ℕ
edit_all s [] = s
edit_all s (c ∷ keys) = edit_all (edit s c) keys

-- What is printed for such a key.
abbrev pub echo_of : List ℕ → ℕ → List ℕ
echo_of s c =
    if c == 0x7f || c == 0x08
    then (if ltb 0 (length s) then codes "\u{8} \u{8}" else [])
    else if ltb c 0x20
    then []
    else if ltb (length s) (line_max - 1)
    then c ∷ []
    else []

unfoldable pub echo_all : List ℕ → List ℕ → List ℕ
echo_all s [] = []
echo_all s (c ∷ keys) = echo_of s c ++ echo_all (edit s c) keys

abbrev pub text : Line → List ℕ
text l = take l.len l.buf

length-take : (n : ℕ) (s : List ℕ) → n ≤ length s → length (take n s) ≡ n
length-take zero s h = refl
length-take (suc n) [] h = absurd (omega arith)
length-take (suc n) (x ∷ s) h = ap suc (length-take n s (omega arith))

take-set : (s : List ℕ) (i c : ℕ) → i < length s → take (suc i) (set s i c) ≡ take i s ++ (c ∷ [])
take-set [] i c h = absurd (omega arith)
take-set (x ∷ s) zero c h = refl
take-set (x ∷ s) (suc i) c h = ap (λ t. x ∷ t) (take-set s i c (omega arith))

take-pred : (n : ℕ) (s : List ℕ) → n < length s → take n s ≡ but_last (take (suc n) s)
take-pred n [] h = absurd (omega arith)
take-pred zero (x ∷ s) h = refl
take-pred (suc n) (x ∷ []) h = absurd (omega arith)
take-pred (suc n) (x ∷ y ∷ s) h = ap (λ t. x ∷ t) (take-pred n (y ∷ s) (omega arith))

abbrev pub NoZero : List ℕ → Type 0
NoZero [] = Unit {0}
NoZero (c ∷ s) = (c ≢ 0) × NoZero s

pub NoZero-append : (s t : List ℕ) → NoZero s → NoZero t → NoZero (s ++ t)
NoZero-append [] t hs ht = ht
NoZero-append (c ∷ s) t hs ht = (hs.0, NoZero-append s t hs.1 ht)

pub NoZero-but_last : (s : List ℕ) → NoZero s → NoZero (but_last s)
NoZero-but_last [] h = tt
NoZero-but_last (x ∷ []) h = tt
NoZero-but_last (x ∷ y ∷ s) h = (h.0, NoZero-but_last (y ∷ s) h.1)

pub c_str-set :
    (s : List ℕ) (i : ℕ) → i < length s → NoZero (take i s) → c_str (set s i 0) ≡ take i s
unfolding c_str
c_str-set [] i h n = absurd (omega arith)
c_str-set (x ∷ s) zero h n = refl
c_str-set (x ∷ s) (suc i) h n = ground (arith, c_str-set s i (omega arith) n.1, n.0)

-- A key that does not end the line, met by a valid line with the text `s`.
pub record Edited (s : List ℕ) (c : ℕ) (k : Key) : Type 0 where
  pub line : Line
  pub goes_on : k ≡ more (echo_of s c) line
  pub valid : IsValid line
  pub holds : text line ≡ edit s c

module _ (l : Line) (v : IsValid l) where
  pub length-text : length (text l) ≡ l.len
  length-text = length-take l.len l.buf (omega (arith, v.size, v.room))

  erased : 0 < l.len → take (l.len - 1) l.buf ≡ but_last (text l)
  erased h =
      let e : suc (l.len - 1) ≡ l.len = omega arith in
      take-pred (l.len - 1) l.buf (omega (arith, v.size, v.room))
      ∙ ap (λ n. but_last (take n l.buf)) e

  nothing_erased : l.len ≡ 0 → text l ≡ but_last (text l)
  nothing_erased e = rw e refl

  typed : (c : ℕ) → take (l.len + 1) (set l.buf l.len c) ≡ text l ++ (c ∷ [])
  typed c = rw add-one (take-set l.buf l.len c (omega (arith, v.size, v.room)))

  pub read_key-Edited : (c : ℕ) → is_enter c ≡ false → Edited (text l) c (read_key c l)
  unfolding read_key
  read_key-Edited c e = elim (Bool-cases (c == 0x7f || c == 0x08)) [
    | inl del ↦ elim (Bool-cases (ltb 0 l.len)) [
      | inl left ↦ record {
        line = record l { len = l.len - 1 };
        goes_on = ground (arith, e, del, left, length-text);
        valid = record { size = v.size; room = omega (arith, v.room) };
        holds = ground (arith, del, erased);
      }
      | inr empty ↦ record {
        line = l;
        goes_on = ground (arith, e, del, empty, length-text);
        valid = v;
        holds = ground (arith, del, nothing_erased);
      }
    ]
    | inr keep ↦ elim (Bool-cases (ltb c 0x20)) [
      | inl control ↦ record {
        line = l;
        goes_on = ground (arith, e, keep, control);
        valid = v;
        holds = ground (arith, keep, control);
      }
      | inr shown ↦ elim (Bool-cases (ltb l.len (line_max - 1))) [
        | inl fits ↦ record {
          line = record { buf = set l.buf l.len c; len = l.len + 1 };
          goes_on = ground (arith, e, keep, shown, fits, length-text);
          valid = record { size = length-set l.buf l.len c ∙ v.size; room = ground (arith, fits) };
          holds = ground (arith, keep, shown, fits, length-text, typed c);
        }
        | inr full ↦ record {
          line = l;
          goes_on = ground (arith, e, keep, shown, full, length-text);
          valid = v;
          holds = ground (arith, keep, shown, full, length-text);
        }
      ]
    ]
  ]
