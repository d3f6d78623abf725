-- ===== src/Objects/Lifetime.antt =====
-- An object of src/object.c from its allocation to its release.
use ifj.Prelude.{
  append_assoc, ℕ, suc, ◌+◌, ◌≡◌, refl, ap, ◌∙◌, arith, Bool, true, false, List, [], ◌∷◌, ◌++◌,
  length, Bytes, Option, none, some, bind, ok, err, bad_access, if◌then◌else◌,
}
use ifj.Token.{word, Double}
use ifj.Printer.Output.{Chunk, lit, str, dec, real}
use ifj.Objects.{
  found_block, release, ObjectType, unset, Block, string_block, Memory, M, Member, as_int,
  as_double, as_pointer, allocate, read_block, read_object, read_string, free, alloc_object,
  with_value, int_new, double_new, bool_new, string_new, value_text, object_inspect, object_free,
  int_type, double_type, bool_type, string_type,
}
use ifj.Objects.Blocks.{
  live, get_elem?-second, set_block-second, live-freed, memory, object_as, step, allocate-object,
  read_object-behind, read_object-freed, free-behind, with_value-object,
}

-- The values that an object can be made of.
pub data Given : Type 0 where
  int : ℕ → Given
  double : Double → Given
  bool : Bool → Given
  string : Bytes → Given

-- The function that makes the object.
abbrev pub new : Given → M (Option ℕ)
new (int n) = int_new n
new (double d) = double_new d
new (bool b) = bool_new b
new (string s) = string_new s

-- What is printed of the value.
abbrev pub text_of : Given → List Chunk
text_of (int n) = dec (word n) ∷ lit "\n" ∷ []
text_of (double d) = real d ∷ lit "\n" ∷ []
text_of (bool b) = lit (if b then "true" else "false") ∷ lit "\n" ∷ []
text_of (string s) = str s ∷ lit "\n" ∷ []

-- The blocks that an object takes.
abbrev pub blocks_of : Given → ℕ
blocks_of (string s) = 2
blocks_of _ = 1

-- An object is made at an address, prints as a text, and its release gives back exactly the
-- blocks that were allocated for it; a second release is an error.
abbrev pub Lives : M (Option ℕ) → Memory → List Chunk → Type 0
Lives make h cs =
    (p : Option ℕ) × ((g : Memory) × (make h ≡ ok (p, g))
      × (object_inspect p g ≡ ok (cs, g))
      × ((f : Memory) × (object_free p g ≡ ok (tt, f))
          × (live f.blocks ≡ live h.blocks)
          × (object_free p f ≡ err bad_access)))

-- The objects that are not strings.
module _ (τ : ObjectType) (v : Member) (cs : List Chunk) (h : Memory) (n : ℕ) where
  plain-Lives :
      h.room ≡ suc n
      → ((g : Memory) → value_text τ v g ≡ ok (cs, g))
      → ((a : ℕ) (g : Memory)
          → read_object (some a) g ≡ ok (record { type = τ; value = v }, g)
          → object_free (some a) g ≡ free (some a) g)
      → Lives (λ m. bind (alloc_object τ m) (λ r. with_value r.0 v r.1)) h cs
  unfolding object_inspect
  plain-Lives e t k =
      let bs = h.blocks in
      let r = read_object-behind τ v n bs [] in
      (
        some (length bs),
        (
          memory n (bs ++ object_as τ v ∷ []),
          step _ _ (allocate-object τ v n bs h e) (with_value-object τ v unset n bs []),
          step _ _ r (t _),
          (
            memory n (bs ++ none ∷ []),
            k _ _ r ∙ free-behind τ v n bs _ [],
            (live-freed bs).0,
            read_object-freed τ v n bs [],
          ),
        ),
      )

-- A string takes a second block for its bytes.
module _ (s : Bytes) (h : Memory) (n : ℕ) where
  abbrev bare : Option Block
  bare = object_as string_type unset

  abbrev copy : Option ℕ
  copy = some (length (h.blocks ++ bare ∷ []))

  abbrev made : Option Block
  made = object_as string_type (as_pointer copy)

  abbrev bytes : Option Block
  bytes = some (string_block s)

  string_new-made :
      h.room ≡ suc (suc n)
      → string_new s h ≡ ok (some (length h.blocks), memory n (h.blocks ++ made ∷ bytes ∷ []))
  unfolding string_new allocate
  string_new-made e = step _ _ (allocate-object string_type unset (suc n) h.blocks h e) (
      ap (λ bs. with_value (some (length h.blocks)) (as_pointer copy) (memory n bs))
        (append_assoc h.blocks (bare ∷ []) (bytes ∷ []))
      ∙ with_value-object string_type (as_pointer copy) unset n h.blocks (bytes ∷ []))

  object_inspect-made :
      object_inspect (some (length h.blocks)) (memory n (h.blocks ++ made ∷ bytes ∷ []))
      ≡ ok (str s ∷ lit "\n" ∷ [], memory n (h.blocks ++ made ∷ bytes ∷ []))
  unfolding object_inspect value_text read_string read_block
  object_inspect-made =
      step _ _ (read_object-behind string_type (as_pointer copy) n h.blocks (bytes ∷ [])) (
        step _ _
          (step _ _
            (ap (λ b. found_block b (memory n (h.blocks ++ made ∷ bytes ∷ [])))
              (get_elem?-second h.blocks made bytes bare))
            refl)
          refl)

  object_free-made :
      object_free (some (length h.blocks)) (memory n (h.blocks ++ made ∷ bytes ∷ []))
      ≡ ok (tt, memory n (h.blocks ++ none ∷ none ∷ []))
  unfolding object_free free
  object_free-made =
      step _ _ (read_object-behind string_type (as_pointer copy) n h.blocks (bytes ∷ [])) (
        step _ _
          (ap
              (λ x.
                release x (length (h.blocks ++ bare ∷ []))
                  (memory n (h.blocks ++ made ∷ bytes ∷ [])))
              (get_elem?-second h.blocks made bytes bare)
            ∙ ap (λ x. ok (tt, memory n x)) (set_block-second h.blocks made bytes bare none))
          (free-behind string_type unset n h.blocks _ (none ∷ [])))

-- Where there is room for it, every value is made an object that prints as the value, and whose
-- release gives back exactly the blocks that were allocated for it; a second release is an error.
pub object_free-new :
    (v : Given) (h : Memory) (n : ℕ) → h.room ≡ blocks_of v + n → Lives (new v) h (text_of v)
unfolding int_new double_new bool_new value_text object_free
object_free-new (int k) h n e =
    plain-Lives int_type (as_int k) _ h n (omega (arith, e)) (λ g. refl) (λ a g r. step _ _ r refl)
object_free-new (double d) h n e =
    plain-Lives double_type (as_double d) _ h n (omega (arith, e)) (λ g. refl)
      (λ a g r. step _ _ r refl)
object_free-new (bool true) h n e =
    plain-Lives bool_type (as_int 1) _ h n (omega (arith, e)) (λ g. refl) (λ a g r. step _ _ r refl)
object_free-new (bool false) h n e =
    plain-Lives bool_type (as_int 0) _ h n (omega (arith, e)) (λ g. refl) (λ a g r. step _ _ r refl)
object_free-new (string s) h n e = (
  some (length h.blocks),
  (
    memory n (h.blocks ++ made s h n ∷ bytes s h n ∷ []),
    string_new-made s h n (omega (arith, e)),
    object_inspect-made s h n,
    (
      memory n (h.blocks ++ none ∷ none ∷ []),
      object_free-made s h n,
      (live-freed h.blocks).1,
      read_object-freed string_type unset n h.blocks (none ∷ []),
    ),
  ),
)
