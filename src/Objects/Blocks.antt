-- ===== src/Objects/Blocks.antt =====
-- The steps of src/object.c on a memory whose last blocks are known.
use ifj.Prelude.{
  Fault, ℕ, suc, ◌≡◌, refl, ap, ◌∙◌, List, [], ◌∷◌, ◌++◌, length, get_elem?, Option, none, some,
  Result, bind, ok, err, bad_access,
}
use ifj.Objects.{
  found_block, release, ObjectType, unset, Block, object_block, Memory, Member, set_block, allocate,
  read_block, read_object, write_value, free, alloc_object, with_value, object_free,
}

-- The number of blocks that are not freed.
abbrev pub live : List (Option Block) → ℕ
live [] = 0
live (none ∷ bs) = live bs
live (some b ∷ bs) = suc (live bs)

get_elem?-behind :
    (xs : List (Option Block)) (y : Option Block) (ys : List (Option Block))
    → get_elem? (xs ++ y ∷ ys) (length xs) ≡ some y
get_elem?-behind [] y ys = refl
get_elem?-behind (x ∷ xs) y ys = get_elem?-behind xs y ys

set_block-behind :
    (xs : List (Option Block)) (y z : Option Block) (ys : List (Option Block))
    → set_block (xs ++ y ∷ ys) (length xs) z ≡ xs ++ z ∷ ys
set_block-behind [] y z ys = refl
set_block-behind (x ∷ xs) y z ys = ap (◌∷◌ x) (set_block-behind xs y z ys)

-- The second block behind the others; the length of these does not depend on the first.
pub get_elem?-second :
    (xs : List (Option Block)) (x y w : Option Block)
    → get_elem? (xs ++ x ∷ y ∷ []) (length (xs ++ w ∷ [])) ≡ some y
get_elem?-second [] x y w = refl
get_elem?-second (z ∷ xs) x y w = get_elem?-second xs x y w

pub set_block-second :
    (xs : List (Option Block)) (x y w z : Option Block)
    → set_block (xs ++ x ∷ y ∷ []) (length (xs ++ w ∷ [])) z ≡ xs ++ x ∷ z ∷ []
set_block-second [] x y w z = refl
set_block-second (v ∷ xs) x y w z = ap (◌∷◌ v) (set_block-second xs x y w z)

-- Freed blocks behind do not count.
pub live-freed :
    (xs : List (Option Block))
    → (live (xs ++ none ∷ []) ≡ live xs) × (live (xs ++ none ∷ none ∷ []) ≡ live xs)
live-freed [] = (refl, refl)
live-freed (none ∷ xs) = live-freed xs
live-freed (some b ∷ xs) = (ap suc (live-freed xs).0, ap suc (live-freed xs).1)

abbrev pub memory : ℕ → List (Option Block) → Memory
memory n bs = record { room = n; blocks = bs }

abbrev pub object_as : ObjectType → Member → Option Block
object_as τ v = some (object_block (record { type = τ; value = v }))

pub step :
    {A B : Type 0} (m : Result A) (f : A → Result B) {a : A} {r : Result B}
    → m ≡ ok a
    → f a ≡ r
    → bind m f ≡ r
step m f h k = ap (λ x. bind x f) h ∙ k

fails : {A B : Type 0} (m : Result A) (f : A → Result B) {e : Fault} → m ≡ err e → bind m f ≡ err e
fails m f h = ap (λ x. bind x f) h

-- An object behind the other blocks.
module _ (τ : ObjectType) (v : Member) (n : ℕ) (bs : List (Option Block)) where
  pub allocate-object :
      (h : Memory)
      → h.room ≡ suc n
      → alloc_object τ h
        ≡ ok (some (length h.blocks), memory n (h.blocks ++ object_as τ unset ∷ []))
  unfolding alloc_object allocate
  allocate-object h e = rw (e) refl

  pub read_object-behind :
      (rest : List (Option Block))
      → read_object (some (length bs)) (memory n (bs ++ object_as τ v ∷ rest))
        ≡ ok (record { type = τ; value = v }, memory n (bs ++ object_as τ v ∷ rest))
  unfolding read_object read_block
  read_object-behind rest =
      step _ _
        (ap (λ b. found_block b (memory n (bs ++ object_as τ v ∷ rest)))
          (get_elem?-behind bs (object_as τ v) rest))
        refl

  pub read_object-freed :
      (rest : List (Option Block))
      → object_free (some (length bs)) (memory n (bs ++ none ∷ rest)) ≡ err bad_access
  unfolding object_free read_object read_block
  read_object-freed rest = fails _ _ (
      fails _ _
        (ap (λ b. found_block b (memory n (bs ++ none ∷ rest))) (get_elem?-behind bs none rest)))

  pub free-behind :
      (b : Block) (rest : List (Option Block))
      → free (some (length bs)) (memory n (bs ++ some b ∷ rest))
        ≡ ok (tt, memory n (bs ++ none ∷ rest))
  unfolding free
  free-behind b rest =
      ap (λ x. release x (length bs) (memory n (bs ++ some b ∷ rest)))
        (get_elem?-behind bs (some b) rest)
      ∙ ap (λ x. ok (tt, memory n x)) (set_block-behind bs (some b) none rest)

module _ (τ : ObjectType) (v w : Member) (n : ℕ) (bs : List (Option Block)) where
  pub with_value-object :
      (rest : List (Option Block))
      → with_value (some (length bs)) v (memory n (bs ++ object_as τ w ∷ rest))
        ≡ ok (some (length bs), memory n (bs ++ object_as τ v ∷ rest))
  unfolding with_value write_value
  with_value-object rest = step _ _ (step _ _ (read_object-behind τ w n bs rest) refl) (
      ap (λ x. ok (some (length bs), memory n x))
        (set_block-behind bs (object_as τ w) (object_as τ v) rest))
