-- ===== src/Plic/Steps.antt =====
-- The operations of src/plic/plic_main.c, one by one, against the view of the board that it relies
-- on.
use riscv_baremetal_demo.Base.{ℕ, ◌≡◌, refl, sym, ap, Bool, true, Option, none, some, List}
use mathlib.Core.Path.{subst, fun_ext}
use riscv_baremetal_demo.Probe.{perform}
use riscv_baremetal_demo.Plic.{Board, World, M, ◌>>=◌, spoken, verified, written, looked}
use riscv_baremetal_demo.Plic.Conforming.{
  View, answer, transmit, after_read, after_write, replay, fresh, Conforms, Setup,
}

-- A part of the program ends in a value and a world with the property.
abbrev pub Ends : {A : Type 0} → Option (A × World) → (A → World → Type 0) → Type 0
Ends o P = elim o [ none ↦ ⊥ | some (a, w) ↦ P a w ]

pub Ends-some :
    {A : Type 0} (P : A → World → Type 0) (o : Option (A × World))
    → Ends o P
    → (a : A) × (w : World) × (o ≡ some (a, w)) × P a w
Ends-some P none h = elim h [ ]
Ends-some P (some (a, w)) h = (a, w, refl, h)

pub Ends-next :
    {A B : Type 0} (P : B → World → Type 0) (first : M A) (rest : A → M B) (w : World) (a : A)
    (w' : World)
    → first w ≡ some (a, w')
    → Ends (rest a w') P
    → Ends ((first >>= rest) w) P
Ends-next {A} {B} P first rest w a w' e h =
    subst (λ (o : Option (A × World)). Ends (elim o [ none ↦ none | some (b, v) ↦ rest b v ]) P)
      (sym e) h

-- No check failed so far, and the board is in a view.
module _ (s : Setup) where
  pub reference : Board
  reference log addr = answer (replay (fresh s.enable s.thresh s.rx) s.again log) addr

  abbrev at : World → View
  at w = replay (fresh s.enable s.thresh s.rx) s.again w.log

  pub record At (w : World) (v : View) : Type 0 where
    pub shows : at w ≡ v
    pub clean : w.shown.fails ≡ 0

  pub At-spoken :
      (texts : List (List ℕ)) (w : World) (v : View)
      → At w v
      → ((b : Bool) → transmit b b'\n' v ≡ v)
      → At (spoken texts w) v
  unfolding spoken replay perform
  At-spoken texts w v a still = record {
    shows = rw a.shows (still (s.again w.log));
    clean = a.clean;
  }

  -- A text while the line is up leaves the pending bit open.
  pub spoken_open :
      (texts : List (List ℕ)) (w : World) (v : View)
      → At w v
      → (b : Bool) × At (spoken texts w) (transmit b b'\n' v)
  unfolding spoken replay perform
  spoken_open texts w v a = (s.again w.log, record { shows = rw a.shows refl; clean = a.clean })

  pub At-verified :
      (cond : Bool) (msg : List ℕ) (w : World) (v : View)
      → At w v
      → cond ≡ true
      → At (verified cond msg w) v
  unfolding verified perform
  At-verified cond msg w v a holds = record { shows = rw holds a.shows; clean = rw holds a.clean }

  pub At-written :
      (addr x : ℕ) (w : World) (v v' : View)
      → At w v
      → ((b : Bool) → after_write b addr x v ≡ v')
      → At (written addr x w) v'
  unfolding written replay
  At-written addr x w v v' a next = record {
    shows = rw a.shows (next (s.again w.log));
    clean = a.clean;
  }

  pub At-looked :
      (addr : ℕ) (w : World) (v v' : View)
      → At w v
      → after_read addr v ≡ v'
      → At (looked reference addr w) v'
  unfolding looked replay
  At-looked addr w v v' a next = record { shows = rw a.shows next; clean = a.clean }

  pub answer_shown :
      (addr : ℕ) (w : World) (v : View) → At w v → reference w.log addr ≡ answer v addr
  unfolding reference
  answer_shown addr w v a = ap (λ (u : View). answer u addr) a.shows

pub conforming_board : (board : Board) (c : Conforms board) → board ≡ reference c.setup
unfolding reference
conforming_board board c = fun_ext (λ log. fun_ext (λ addr. c.answers log addr))
