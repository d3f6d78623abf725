-- ===== src/Codegen/Keeps/Loops.antt =====
-- The loops in src/codegen.c.
use ifj.Prelude.{and_then, ℕ, ◌+◌, ◌≡◌, ap, ◌∙◌, arith, [], ◌∷◌, ◌++◌, some, gives, bind-Leads}
use ifj.Codegen.Output.{label_loop, numbered}
use ifj.Codegen.State.{Gen, M, modify}
use ifj.Codegen.Keeps.{loops, loops-append, Sound, Moves, Keeps, ◌>>>◌}
use ifj.Codegen.Visitors.{visit_while}

loops-label : (c : ℕ) → loops c (numbered label_loop (c + 1) ∷ []) ≡ some (c + 1)
unfolding loops
loops-label c = ground arith

-- The label of a loop has the number behind the last one. Behind the block one more jump is due.
abbrev entered : Gen → Gen
entered g = record g {
  loop_num = g.mem_loop_num + 1;
  mem_loop_num = g.mem_loop_num + 1;
  out = g.out ++ numbered label_loop (g.mem_loop_num + 1) ∷ [];
}

entered-Sound : (g : Gen) → Sound g → Sound (entered g)
entered-Sound g s = record {
  numbers =
      loops-append 0 g.out (numbered label_loop (g.mem_loop_num + 1) ∷ [])
      ∙ ap (λ o. and_then o λ d. loops d (numbered label_loop (g.mem_loop_num + 1) ∷ [])) s.numbers
      ∙ loops-label g.mem_loop_num;
  due = omega (arith, s.due, s.labels);
  labels = omega arith;
}

abbrev owed : Gen → Gen
owed h = record h { from_loop = h.from_loop + 1 }

owed-Moves : (g h : Gen) → Sound g → Moves (entered g) h → Moves g (owed h)
owed-Moves g h s p = record {
  sound = record {
    numbers = p.sound.numbers;
    due = omega (arith, p.jumps, s.due, s.labels);
    labels = p.sound.labels;
  };
  jumps = omega (arith, p.jumps, s.due, s.labels);
  grows = omega (arith, p.grows);
  same_scope = p.same_scope;
  same_params = p.same_params;
  same_func = p.same_func;
  same_dim = p.same_dim;
}

pub visit_while-Keeps : {expr block : M} → Keeps expr → Keeps block → Keeps (visit_while expr block)
unfolding visit_while
visit_while-Keeps {block = block} x b =
    record {
      keeps = λ g s.
          bind-Leads (block (entered g)) (modify owed) (b.keeps (entered g) (entered-Sound g s))
            λ h p. gives (owed-Moves g h s p);
    }
    >>> x
