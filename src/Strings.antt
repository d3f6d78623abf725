-- ===== src/Strings.antt =====
-- src/state.h, src/state.c and src/string.c: the strings that a state holds, each once.
--
-- The table `strs` is one of khash, with two more of its calls. Its values are addresses, which
-- are places in the list of the objects that were allocated. `room` is the number of calls of
-- `calloc` and `malloc` that still succeed; they return NULL behind them. An object whose bytes
-- find no room is lost, and is not listed. The strings are the bytes in front of the terminating
-- zero; a key is such a string, where the code stores the pointer that it was called with.
use ifj.Prelude.{
  ℕ, zero, suc, ◌%◌, ◌≡◌, Bool, true, false, List, [], ◌∷◌, ◌++◌, length, Bytes, Option, none, some,
  ◌==◌, if◌then◌else◌, Result, ok, err, null_pointer, bind,
}
use ifj.Token.{int_mod}
use ifj.Hash.{Khash, IsKhash}
pub mod Interned

-- `ifj17_string_t`
pub record StringObject : Type 0 where
  pub len : ℕ
  pub val : Bytes

-- The object of a string, with its length as an int.
abbrev pub object_of : Bytes → StringObject
object_of val = record { len = length val % int_mod; val = val }

-- What `KHASH_MAP_INIT_STR(str, ifj17_string_t *)` declares.
pub record StrTable : Type 1 where
  pub calls : Khash ℕ
  pub kh_init : calls.Table
  pub kh_size : calls.Table → ℕ

-- A table of size zero has no entry, and a new one has size zero.
pub record IsStrTable (K : StrTable) : Type 0 where
  pub promises : IsKhash K.calls
  pub init_size : K.kh_size K.kh_init ≡ 0
  pub no_entries :
      (t : K.calls.Table) (i : K.calls.Iter) → K.kh_size t ≡ 0 → promises.key_at t i ≡ none

module _ (K : StrTable) where
  open K use {calls, kh_init, kh_size}

  -- `ifj17_state_t`, with the objects that its table points to.
  pub record State : Type 0 where
    pub strs : calls.Table
    pub objects : List StringObject
    pub room : ℕ

  -- `ifj17_state_init`, where `room` allocations will succeed.
  unfoldable pub state_init : ℕ → State
  state_init room = record { strs = kh_init; objects = []; room = room }

  -- The part of `ifj17_string` behind the allocations, with the room that they left: the bytes
  -- are copied, and the object is put into the table.
  unfoldable pub add_string : ℕ → State → Bytes → State
  add_string room state val =
      let k = calls.kh_put state.strs val in
      record {
        strs = calls.kh_set_value k.1 k.0 (length state.objects);
        objects = state.objects ++ object_of val ∷ [];
        room = room;
      }

  -- The part of `ifj17_string` behind `alloc`. The result of `calloc` is not tested, and its
  -- length is written; `none` stands for the NULL that is returned where `malloc` fails.
  unfoldable pub alloc_string : State → Bytes → Result (Option ℕ × State)
  alloc_string state val = elim (state.room) [
    | zero ↦ err null_pointer
    | suc n ↦ elim n [
      | zero ↦ ok (none, record state { room = 0 })
      | suc left ↦ ok (some (length state.objects), add_string left state val)
    ]
  ]

  -- `kh_size(strs) && kh_exist(strs, k)`
  unfoldable pub exists : State → calls.Iter → Result Bool
  exists state k = if kh_size state.strs == 0 then ok false else calls.kh_exist state.strs k

  -- `ifj17_string`
  unfoldable pub string_object : State → Bytes → Result (Option ℕ × State)
  string_object state val =
      let k = calls.kh_get state.strs val in
      bind (exists state k) λ found.
        if found then ok (some (calls.kh_value state.strs k), state) else alloc_string state val
