-- ===== src/Codegen/Keeps.antt =====
-- What every visitor of src/codegen.c keeps: the labels of the loops are numbered in order, a jump
-- to one goes back to a label that is there, and the flags of the context are set back.
pub mod Operators
pub mod Leaves
pub mod Statements
pub mod Loops
use Prim.Native.String.{String}
use ifj.Prelude.{
  and_then, and_then-and_then, ℕ, zero, suc, ◌+◌, ◌-◌, ◌≤◌, ◌≡◌, refl, sym, ap, ◌∙◌, arith, Bool,
  true, false, ◌&&◌, List, [], ◌∷◌, ◌++◌, Option, none, some, ◌==◌, ==_iff, leb, if◌then◌else◌,
  Bool-cases, inl, inr, Fault, IsReal, Result, ok, err, bind, Leads, gives, faults, bind-Leads,
  Leads-weaken,
}
use ifj.Codegen.Output.{Format, label_loop, jump_loop, Piece, lit, str, dec, short, numbered}
use ifj.Codegen.State.{Gen, M, ◌>>◌, skip, crash, modify, test, print, text, print_num}

-- The number of loops behind one piece, `c` before it: a label must have the next number, and a
-- jump the number of a label that is there.
abbrev pub count_loop : ℕ → Piece → Option ℕ
count_loop c (numbered label_loop n) = if n == c + 1 then some (c + 1) else none
count_loop c (numbered jump_loop n) = if leb 1 n && leb n c then some c else none
count_loop c _ = some c

unfoldable pub loops : ℕ → List Piece → Option ℕ
loops c [] = some c
loops c (p ∷ ps) = and_then (count_loop c p) λ d. loops d ps

pub loops-append :
    (c : ℕ) (ps qs : List Piece) → loops c (ps ++ qs) ≡ and_then (loops c ps) λ d. loops d qs
unfolding loops
loops-append c [] qs = refl
loops-append c (p ∷ ps) qs =
    and_then-and_then (count_loop c p) (λ d. loops d ps) (λ d. loops d qs) (λ d. loops d (ps ++ qs))
      λ d. loops-append d ps qs

-- The output is in order, and `loop_num` counts down from the last label, but not below the
-- number of jumps that are due.
pub record Sound (g : Gen) : Type 0 where
  pub numbers : loops 0 g.out ≡ some g.mem_loop_num
  pub due : g.from_loop ≤ g.loop_num
  pub labels : g.loop_num ≤ g.mem_loop_num

-- What holds between the states before and behind a visit.
pub record Moves (g h : Gen) : Type 0 where
  pub sound : Sound h
  pub jumps : g.loop_num + h.from_loop ≤ h.loop_num + g.from_loop
  pub grows : g.mem_loop_num ≤ h.mem_loop_num
  pub same_scope : h.scope ≡ g.scope
  pub same_params : h.params ≡ g.params
  pub same_func : h.from_func ≡ g.from_func
  pub same_dim : h.from_dim ≡ g.from_dim

pub record Keeps (m : M) : Type 0 where
  pub keeps : (g : Gen) → Sound g → Leads IsReal (Moves g) (m g)

pub Moves-trans : {g h k : Gen} → Moves g h → Moves h k → Moves g k
Moves-trans s t = record {
  sound = t.sound;
  jumps = omega (arith, s.jumps, t.jumps);
  grows = omega (arith, s.grows, t.grows);
  same_scope = t.same_scope ∙ s.same_scope;
  same_params = t.same_params ∙ s.same_params;
  same_func = t.same_func ∙ s.same_func;
  same_dim = t.same_dim ∙ s.same_dim;
}

infixl 5 ◌>>>◌
pub ◌>>>◌ : {m k : M} → Keeps m → Keeps k → Keeps (m >> k)
◌>>>◌ {m} {k} x y = record {
  keeps = λ g s.
      bind-Leads (m g) k (x.keeps g s)
        λ h p. Leads-weaken (λ i q. Moves-trans p q) (y.keeps h p.sound);
}

pub skipped : Keeps skip
skipped = record {
  keeps = λ g s. gives (record {
    sound = s;
    jumps = omega arith;
    grows = omega arith;
    same_scope = refl;
    same_params = refl;
    same_func = refl;
    same_dim = refl;
  });
}

pub crashed : (e : Fault) → IsReal e → Keeps (crash e)
crashed e h = record { keeps = λ g s. faults h }

pub tested : (b : Gen → Bool) {x y : M} → Keeps x → Keeps y → Keeps (test b x y)
tested b {x} {y} h k = record { keeps = λ g s. either (b g) (h.keeps g s) (k.keeps g s) }
  where
    either :
        {g : Gen} (c : Bool)
        → Leads IsReal (Moves g) (x g)
        → Leads IsReal (Moves g) (y g)
        → Leads IsReal (Moves g) (if c then x g else y g)
    either true p q = p
    either false p q = q

pub chosen : (b : Bool) {x y : M} → Keeps x → Keeps y → Keeps (if b then x else y)
chosen true h k = h
chosen false h k = k

-- Output without labels of loops and jumps to them.
pub printed : (ps : List Piece) → ((c : ℕ) → loops c ps ≡ some c) → Keeps (print ps)
printed ps h = record {
  keeps = λ g s. gives (record {
    sound = record {
      numbers =
          loops-append 0 g.out ps
          ∙ ap (λ o. and_then o λ d. loops d ps) s.numbers
          ∙ h g.mem_loop_num;
      due = s.due;
      labels = s.labels;
    };
    jumps = omega arith;
    grows = omega arith;
    same_scope = refl;
    same_params = refl;
    same_func = refl;
    same_dim = refl;
  });
}

pub texted : (s : String) → Keeps (text s)
unfolding loops
texted s = printed _ λ c. refl

pub counted :
    (f : Format) (n : Gen → ℕ)
    → ((c : ℕ) (k : ℕ) → loops c (numbered f k ∷ []) ≡ some c)
    → Keeps (print_num f n)
counted f n h = record {
  keeps = λ g s. (printed (numbered f (n g) ∷ []) (λ c. h c (n g))).keeps g s;
}

-- The variables in question.
pub record Core : Type 0 where
  pub core_out : List Piece
  pub core_from_loop : ℕ
  pub core_loop_num : ℕ
  pub core_mem_loop_num : ℕ
  pub core_scope : ℕ
  pub core_params : ℕ
  pub core_from_func : ℕ
  pub core_from_dim : ℕ

abbrev pub core : Gen → Core
core g = record {
  core_out = g.out;
  core_from_loop = g.from_loop;
  core_loop_num = g.loop_num;
  core_mem_loop_num = g.mem_loop_num;
  core_scope = g.scope;
  core_params = g.params;
  core_from_func = g.from_func;
  core_from_dim = g.from_dim;
}

-- A change of the other variables.
pub unrelated : (f : Gen → Gen) → ((g : Gen) → core (f g) ≡ core g) → Keeps (modify f)
unrelated f same = record {
  keeps = λ g s. gives (record {
    sound = record {
      numbers =
          ap (λ (c : Core). loops 0 c.core_out) (same g)
          ∙ s.numbers
          ∙ sym (ap (λ (c : Core). some c.core_mem_loop_num) (same g));
      due = omega (
        arith,
        s.due,
        ap (λ (c : Core). c.core_from_loop) (same g),
        ap (λ (c : Core). c.core_loop_num) (same g),
      );
      labels = omega (
        arith,
        s.labels,
        ap (λ (c : Core). c.core_loop_num) (same g),
        ap (λ (c : Core). c.core_mem_loop_num) (same g),
      );
    };
    jumps = omega (
      arith,
      ap (λ (c : Core). c.core_from_loop) (same g),
      ap (λ (c : Core). c.core_loop_num) (same g),
    );
    grows = omega (arith, ap (λ (c : Core). c.core_mem_loop_num) (same g));
    same_scope = ap (λ (c : Core). c.core_scope) (same g);
    same_params = ap (λ (c : Core). c.core_params) (same g);
    same_func = ap (λ (c : Core). c.core_from_func) (same g);
    same_dim = ap (λ (c : Core). c.core_from_dim) (same g);
  });
}
