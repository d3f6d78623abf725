-- ===== src/Codegen/Keeps/Statements.antt =====
-- Scopes, declarations and the statements that branch in src/codegen.c.
use ifj.Prelude.{
  ℕ, ◌+◌, ◌-◌, refl, ap, ◌∙◌, arith, Bool, ◌||◌, [], ◌∷◌, Bytes, ◌==◌, gives, bind-Leads,
}
use ifj.Codegen.Output.{label_res_if, label_else, jump_else, label_end, jump_end, lit, str}
use ifj.Codegen.State.{M, modify}
use ifj.Codegen.Keeps.{
  loops, Keeps, ◌>>>◌, skipped, tested, chosen, printed, texted, counted, unrelated,
}
use ifj.Codegen.Visitors.{
  in_scope, in_params, in_func, in_dim, visit_scope, count_locals, visit_item, visit_function,
  visit_return, visit_condition, visit_branch, visit_branches, visit_if,
}

pub in_scope-Keeps : {m : M} → Keeps m → Keeps (in_scope m)
in_scope-Keeps {m} h = record {
  keeps = λ g s.
      bind-Leads (m (record g { scope = g.scope + 1 }))
        (modify (λ g. record g { scope = g.scope - 1 }))
        (h.keeps (record g { scope = g.scope + 1 })
          (record { numbers = s.numbers; due = s.due; labels = s.labels }))
        λ k p. gives (record {
          sound = record { numbers = p.sound.numbers; due = p.sound.due; labels = p.sound.labels };
          jumps = p.jumps;
          grows = p.grows;
          same_scope = ap (λ n. n - 1) p.same_scope ∙ omega arith;
          same_params = p.same_params;
          same_func = p.same_func;
          same_dim = p.same_dim;
        });
}

pub in_params-Keeps : {m : M} → Keeps m → Keeps (in_params m)
in_params-Keeps {m} h = record {
  keeps = λ g s.
      bind-Leads (m (record g { params = g.params + 1 }))
        (modify (λ g. record g { params = g.params - 1 }))
        (h.keeps (record g { params = g.params + 1 })
          (record { numbers = s.numbers; due = s.due; labels = s.labels }))
        λ k p. gives (record {
          sound = record { numbers = p.sound.numbers; due = p.sound.due; labels = p.sound.labels };
          jumps = p.jumps;
          grows = p.grows;
          same_scope = p.same_scope;
          same_params = ap (λ n. n - 1) p.same_params ∙ omega arith;
          same_func = p.same_func;
          same_dim = p.same_dim;
        });
}

pub in_func-Keeps : {m : M} → Keeps m → Keeps (in_func m)
in_func-Keeps {m} h = record {
  keeps = λ g s.
      bind-Leads (m (record g { from_func = g.from_func + 1 }))
        (modify (λ g. record g { from_func = g.from_func - 1 }))
        (h.keeps (record g { from_func = g.from_func + 1 })
          (record { numbers = s.numbers; due = s.due; labels = s.labels }))
        λ k p. gives (record {
          sound = record { numbers = p.sound.numbers; due = p.sound.due; labels = p.sound.labels };
          jumps = p.jumps;
          grows = p.grows;
          same_scope = p.same_scope;
          same_params = p.same_params;
          same_func = ap (λ n. n - 1) p.same_func ∙ omega arith;
          same_dim = p.same_dim;
        });
}

pub in_dim-Keeps : {m : M} → Keeps m → Keeps (in_dim m)
in_dim-Keeps {m} h = record {
  keeps = λ g s.
      bind-Leads (m (record g { from_dim = g.from_dim + 1 }))
        (modify (λ g. record g { from_dim = g.from_dim - 1 }))
        (h.keeps (record g { from_dim = g.from_dim + 1 })
          (record { numbers = s.numbers; due = s.due; labels = s.labels }))
        λ k p. gives (record {
          sound = record { numbers = p.sound.numbers; due = p.sound.due; labels = p.sound.labels };
          jumps = p.jumps;
          grows = p.grows;
          same_scope = p.same_scope;
          same_params = p.same_params;
          same_func = p.same_func;
          same_dim = ap (λ n. n - 1) p.same_dim ∙ omega arith;
        });
}

pub visit_scope-Keeps : {block : M} → Keeps block → Keeps (visit_scope block)
unfolding visit_scope
visit_scope-Keeps h = texted _ >>> texted _ >>> texted _ >>> in_scope-Keeps h >>> texted _

pub count_locals-Keeps : Keeps count_locals
unfolding count_locals
count_locals-Keeps =
    tested (λ g. g.from_func == 1)
      (unrelated (λ g. record g { loc_var = g.loc_var + 1 }) (λ g. refl)) skipped

pub visit_item-Keeps :
    (given : Bool) {left right : M} → Keeps left → Keeps right → Keeps (visit_item given left right)
unfolding visit_item
visit_item-Keeps given l r =
    l
    >>> chosen given
        (in_dim-Keeps (
          texted "MOVE "
          >>> l
          >>> r
          >>> unrelated (λ g. record g { not_num = g.not_num + 1 }) (λ g. refl)
          >>> r))
        skipped

pub visit_function-Keeps :
    (name : Bytes) {parameters block : M}
    → Keeps parameters
    → Keeps block
    → Keeps (visit_function name parameters block)
unfolding visit_function loops
visit_function-Keeps name p b = in_func-Keeps (
    texted "LABEL "
    >>> printed (str name ∷ lit "\n" ∷ []) (λ c. refl)
    >>> texted "CREATEFRAME \n"
    >>> p
    >>> b)

pub visit_return-Keeps : (given : Bool) {expr : M} → Keeps expr → Keeps (visit_return given expr)
unfolding visit_return
visit_return-Keeps given h =
    chosen given
      (unrelated (λ g. record g { from_return = g.from_return + 1 }) (λ g. refl)
        >>> h
        >>> texted " \n")
      skipped
    >>> texted "RETURN\n"

pub visit_condition-Keeps : {expr : M} → Keeps expr → Keeps (visit_condition expr)
unfolding visit_condition
visit_condition-Keeps h =
    unrelated (λ g. record g { from_if = g.from_if + 1 }) (λ g. refl)
    >>> unrelated (λ g. record g { else_if_num = g.else_if_num + 1 }) (λ g. refl)
    >>> h

pub visit_branch-Keeps : (number : ℕ) {block : M} → Keeps block → Keeps (visit_branch number block)
unfolding visit_branch loops
visit_branch-Keeps number h =
    counted label_res_if (λ g. number) (λ c k. refl)
    >>> h
    >>> counted jump_end (λ g. g.end_if_num) (λ c k. refl)

pub visit_branches-Keeps :
    (number : ℕ) (has_else has_else_ifs : Bool) {block : M} {blocks : ℕ → M} {else_block : M}
    → Keeps block
    → ((n : ℕ) → Keeps (blocks n))
    → Keeps else_block
    → Keeps (visit_branches number has_else has_else_ifs block blocks else_block)
unfolding visit_branches loops
visit_branches-Keeps number has_else has_else_ifs b bs e =
    chosen has_else
      (unrelated (λ g. record g { else_num = g.else_num + 1 }) (λ g. refl)
        >>> counted jump_else (λ g. g.else_num) (λ c k. refl))
      skipped
    >>> chosen (has_else || has_else_ifs) skipped
        (counted jump_end (λ g. g.end_if_num) (λ c k. refl))
    >>> visit_branch-Keeps (number + 1) b
    >>> bs (number + 1)
    >>> chosen has_else
        (counted label_else (λ g. g.else_num) (λ c k. refl)
          >>> e
          >>> counted jump_end (λ g. g.end_if_num) (λ c k. refl))
        skipped
    >>> counted label_end (λ g. g.end_if_num) (λ c k. refl)

pub visit_if-Keeps :
    {expr conditions : M} (has_else has_else_ifs : Bool) {block : M} {blocks : ℕ → M}
    {else_block : M}
    → Keeps expr
    → Keeps conditions
    → Keeps block
    → ((n : ℕ) → Keeps (blocks n))
    → Keeps else_block
    → Keeps (visit_if expr conditions has_else has_else_ifs block blocks else_block)
unfolding visit_if
visit_if-Keeps has_else has_else_ifs x cs b bs e = record {
  keeps = λ g s.
      (unrelated (λ g. record g { else_if_num = g.else_if_num + 1 }) (λ g. refl)
          >>> unrelated (λ g. record g { from_if = g.from_if + 1 }) (λ g. refl)
          >>> unrelated (λ g. record g { end_if_num = g.end_if_num + 1 }) (λ g. refl)
          >>> x
          >>> cs
          >>> visit_branches-Keeps g.else_if_num has_else has_else_ifs b bs e).keeps
        g s;
}
