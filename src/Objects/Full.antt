-- ===== src/Objects/Full.antt =====
-- The allocations of src/object.c that fail.
use ifj.Prelude.{
  ℕ, ◌≡◌, refl, [], ◌∷◌, ◌++◌, length, Bytes, Option, none, some, ok, err, null_pointer,
}
use ifj.Objects.{
  Block, Memory, as_pointer, allocate, alloc_object, with_value, int_new, double_new, bool_new,
  string_new, read_string, read_block, value_text, object_inspect, string_type, unset,
}
use ifj.Objects.Blocks.{
  memory, object_as, step, allocate-object, with_value-object, read_object-behind,
}
use ifj.Objects.Lifetime.{Given, int, double, bool, string, new}

no_allocation : (b : Block) (h : Memory) → h.room ≡ 0 → allocate b h ≡ ok (none, h)
unfolding allocate
no_allocation b h e = rw (e) refl

new-full : (v : Given) (h : Memory) → h.room ≡ 0 → new v h ≡ ok (none, h)
unfolding int_new double_new bool_new string_new alloc_object with_value
new-full (int n) h e = step _ _ (no_allocation _ h e) refl
new-full (double d) h e = step _ _ (no_allocation _ h e) refl
new-full (bool b) h e = step _ _ (no_allocation _ h e) refl
new-full (string s) h e = step _ _ (no_allocation _ h e) refl

-- Where nothing can be allocated, every function that makes an object returns NULL and leaves the
-- memory as it was. Where there is room for one block, a string is an object whose pointer is
-- NULL, and to print it is an access through NULL.
pub string_new-full :
    (s : Bytes) (h k : Memory)
    → h.room ≡ 0
    → k.room ≡ 1
    → ((v : Given) → new v h ≡ ok (none, h))
      × ((p : Option ℕ) × ((g : Memory) × (string_new s k ≡ ok (p, g))
            × (object_inspect p g ≡ err null_pointer)))
unfolding string_new object_inspect value_text read_string read_block
string_new-full s h k e d = (
  (λ v. new-full v h e),
  (
    some (length k.blocks),
    (
      memory 0 (k.blocks ++ object_as string_type (as_pointer none) ∷ []),
      step _ _ (allocate-object string_type unset 0 k.blocks k d) (
          step _ _ (no_allocation _ (memory 0 _) refl)
            (with_value-object string_type (as_pointer none) unset 0 k.blocks [])),
      step _ _ (read_object-behind string_type (as_pointer none) 0 k.blocks []) refl,
    ),
  ),
)
