-- ===== src/Objects.antt =====
-- src/object.h and src/object.c: the tagged values on the heap.
--
-- The heap is a list of blocks, with `none` for one that was freed; an address is a place in it.
-- `room` is the number of allocations that still succeed: `malloc` and `strdup` return NULL behind
-- them. The union of an object holds the member that was written last, or nothing yet, and
-- reading another is an error here. `%2f` prints what `%f` does, which is never shorter.
use ifj.Prelude.{
  ℕ, zero, suc, ◌-◌, ◌==◌, Bool, true, false, List, [], ◌∷◌, ◌++◌, length, get_elem?, Bytes, Option,
  none, some, Fault, Result, ok, err, bind, null_pointer, bad_access, failed_assert, if◌then◌else◌,
}
use ifj.Token.{word, Double}
use ifj.Printer.Output.{Chunk, lit, str, dec, real}
pub mod Blocks
pub mod Lifetime
pub mod Full

-- `ifj17_object`
pub data ObjectType : Type 0 where
  null_type node_type bool_type int_type double_type string_type object_type array_type list_type :
      ObjectType

-- A member of the union, with its content.
pub data Member : Type 0 where
  unset : Member
  as_pointer : Option ℕ → Member
  as_int : ℕ → Member
  as_double : Double → Member

-- `struct ifj17_object_struct`
pub record Object : Type 0 where
  pub type : ObjectType
  pub value : Member

pub data Block : Type 0 where
  object_block : Object → Block
  string_block : Bytes → Block

pub record Memory : Type 0 where
  pub room : ℕ
  pub blocks : List (Option Block)

-- A step on the memory.
abbrev pub M : Type 0 → Type 0
M A = Memory → Result (A × Memory)

infixl 5 ◌>>=◌ ◌>>◌
abbrev pub ◌>>=◌ : {A B : Type 0} → M A → (A → M B) → M B
◌>>=◌ m f h = bind (m h) (λ r. f r.0 r.1)

abbrev pub ◌>>◌ : {B : Type 0} → M (Unit {0}) → M B → M B
m >> k = m >>= λ _. k

abbrev pub pure : {A : Type 0} → A → M A
pure a h = ok (a, h)

abbrev pub fail : {A : Type 0} → Fault → M A
fail e h = err e

abbrev pub set_block : List (Option Block) → ℕ → Option Block → List (Option Block)
set_block [] a b = []
set_block (x ∷ xs) zero b = b ∷ xs
set_block (x ∷ xs) (suc a) b = x ∷ set_block xs a b

-- `malloc`, and the first write to the block.
unfoldable pub allocate : Block → M (Option ℕ)
allocate b h = elim (h.room) [
  | zero ↦ ok (none, h)
  | suc n ↦ ok (some (length h.blocks), record { room = n; blocks = h.blocks ++ some b ∷ [] })
]

abbrev pub found_block : Option (Option Block) → M Block
found_block (some (some b)) h = ok (b, h)
found_block (some none) h = err bad_access
found_block none h = err bad_access

-- An access through a pointer.
unfoldable pub read_block : Option ℕ → M Block
read_block none h = err null_pointer
read_block (some a) h = found_block (get_elem? h.blocks a) h

unfoldable pub read_object : Option ℕ → M Object
read_object p = do
  b ← read_block p
  elim b as (λ _. M Object) [ object_block o ↦ pure o | string_block s ↦ fail bad_access ]

unfoldable pub read_string : Option ℕ → M Bytes
read_string p = do
  b ← read_block p
  elim b as (λ _. M Bytes) [ object_block o ↦ fail bad_access | string_block s ↦ pure s ]

-- `self->value = ...`
unfoldable pub write_value : ℕ → Member → M (Unit {0})
write_value a v = do
  o ← read_object (some a)
  λ h. ok (
    tt,
    record h { blocks = set_block h.blocks a (some (object_block (record o { value = v }))) },
  )

abbrev pub release : Option (Option Block) → ℕ → M (Unit {0})
release (some (some b)) a h = ok (tt, record h { blocks = set_block h.blocks a none })
release (some none) a h = err bad_access
release none a h = err bad_access

-- `free`, which does nothing on NULL.
unfoldable pub free : Option ℕ → M (Unit {0})
free none h = ok (tt, h)
free (some a) h = release (get_elem? h.blocks a) a h

-- `alloc_object`
unfoldable pub alloc_object : ObjectType → M (Option ℕ)
alloc_object type = allocate (object_block (record { type = type; value = unset }))

-- The value of a new object, behind `if (unlikely(!self)) return NULL;`.
unfoldable pub with_value : Option ℕ → Member → M (Option ℕ)
with_value none v = pure none
with_value (some a) v = do write_value a v; pure (some a)

-- `ifj17_int_new`
unfoldable pub int_new : ℕ → M (Option ℕ)
int_new val = do self ← alloc_object int_type; with_value self (as_int val)

-- `ifj17_double_new`
unfoldable pub double_new : Double → M (Option ℕ)
double_new val = do self ← alloc_object double_type; with_value self (as_double val)

-- `ifj17_bool_new`
unfoldable pub bool_new : Bool → M (Option ℕ)
bool_new val = do self ← alloc_object bool_type; with_value self (as_int (if val then 1 else 0))

-- `ifj17_string_new`: what `strdup` returns is stored as it is.
unfoldable pub string_new : Bytes → M (Option ℕ)
string_new val = do
  self ← alloc_object string_type
  elim self as (λ _. M (Option ℕ)) [
    | none ↦ pure none
    | some a ↦ do copy ← allocate (string_block val); with_value (some a) (as_pointer copy)
  ]

-- The switch of `ifj17_object_inspect`, with what it prints.
unfoldable pub value_text : ObjectType → Member → M (List Chunk)
value_text double_type (as_double d) = pure (real d ∷ lit "\n" ∷ [])
value_text int_type (as_int n) = pure (dec (word n) ∷ lit "\n" ∷ [])
value_text bool_type (as_int n) = pure (lit (if n == 0 then "false" else "true") ∷ lit "\n" ∷ [])
value_text string_type (as_pointer p) = do s ← read_string p; pure (str s ∷ lit "\n" ∷ [])
value_text double_type _ = fail bad_access
value_text int_type _ = fail bad_access
value_text bool_type _ = fail bad_access
value_text string_type _ = fail bad_access
value_text _ _ = fail failed_assert

-- `ifj17_object_inspect`
unfoldable pub object_inspect : Option ℕ → M (List Chunk)
object_inspect self = do o ← read_object self; value_text o.type o.value

-- The pointer in the union.
abbrev pub pointer : Member → M (Option ℕ)
pointer (as_pointer p) = pure p
pointer _ = fail bad_access

-- `ifj17_object_free`
unfoldable pub object_free : Option ℕ → M (Unit {0})
object_free self = do
  o ← read_object self
  elim (o.type) as (λ _. M (Unit {0})) [
    | string_type ↦ do p ← pointer o.value; free p; free self
    | _ ↦ free self
  ]
