-- ===== src/Tests/Hash.antt =====
-- A table of khash as a list of entries, and the examples of the theorems on src/hash.c and
-- src/string.c.
use ifj.Prelude.{
  length, ◌↔◌, same_eq, same_refl, List, Bool-cases, inl, inr, ℕ, ◌≡◌, ◌⊎◌, sym, refl, ap, ◌∙◌,
  Bool, true, false, [], ◌∷◌, Bytes, codes, same, Option, none, some, if◌then◌else◌, ok,
}
use ifj.Hash.{Khash, IsKhash, hash_set, hash_get, hash_has, hash_remove}
use ifj.Strings.{StrTable, IsStrTable, State, state_init, add_string}
use ifj.Strings.Interned.{
  IsInterned, Outcome, state_init-IsInterned, add_string-IsInterned, string_object-IsInterned,
}
use ifj.Hash.Laws.{hash_get-updates}

-- The last entry of a key is the one that counts.
abbrev Store : Type 0
Store = List (Bytes × ℕ)

abbrev lookup : Store → Bytes → Option ℕ
lookup [] k = none
lookup ((j, v) ∷ t) k = if same j k then some v else lookup t k

abbrev remove : Store → Bytes → Store
remove [] k = []
remove ((j, v) ∷ t) k = if same j k then remove t k else (j, v) ∷ remove t k

-- An iterator is a key that has an entry, or the end.
abbrev iter_of : Bytes → Option ℕ → Option Bytes
iter_of key none = none
iter_of key (some v) = some key

abbrev equal_iter : Option Bytes → Option Bytes → Bool
equal_iter none none = true
equal_iter (some j) (some k) = same j k
equal_iter _ _ = false

abbrev value_of : Option ℕ → ℕ
value_of none = 0
value_of (some v) = v

abbrev value_at : Store → Option Bytes → ℕ
value_at t none = 0
value_at t (some k) = value_of (lookup t k)

abbrev store_at : Store → Option Bytes → ℕ → Store
store_at t none v = t
store_at t (some k) v = (k, v) ∷ t

abbrev remove_at : Store → Option Bytes → Store
remove_at t none = t
remove_at t (some k) = remove t k

abbrev is_entry : Option Bytes → Bool
is_entry none = false
is_entry (some k) = true

-- The key at an iterator, if it has an entry.
abbrev key_of : Store → Option Bytes → Option Bytes
key_of t none = none
key_of t (some k) = iter_of k (lookup t k)

abbrev store : Khash ℕ
store = record {
  Table = Store;
  Iter = Option Bytes;
  is_equal = equal_iter;
  kh_get = λ t k. iter_of k (lookup t k);
  kh_put = λ t k. (some k, (k, value_of (lookup t k)) ∷ t);
  kh_del = remove_at;
  kh_end = λ t. none;
  kh_exist = λ t i. ok (is_entry (key_of t i));
  kh_value = value_at;
  kh_set_value = store_at;
}

lookup-remove : (t : Store) (k : Bytes) → lookup (remove t k) k ≡ none
lookup-remove [] k = refl
lookup-remove ((j, v) ∷ t) k = elim (Bool-cases (same j k)) [
  | inl h ↦ rw (h) (lookup-remove t k)
  | inr h ↦ rw (h, h) (lookup-remove t k)
]

kept_entry : (t : Store) (k i : Bytes) → same k i ≡ false → lookup (remove t k) i ≡ lookup t i
kept_entry [] k i h = refl
kept_entry ((j, v) ∷ t) k i h = elim (Bool-cases (same j k)) [
  | inl e ↦ let d = ap (λ x. same x i) (same_eq j k e) ∙ h in rw (e, d) (kept_entry t k i h)
  | inr e ↦ elim (Bool-cases (same j i)) [
    | inl d ↦ rw (e, d) refl
    | inr d ↦ rw (e, d) (kept_entry t k i h)
  ]
]

equal_iter_iff : (i j : Option Bytes) → (equal_iter i j ≡ true) ↔ (i ≡ j)
equal_iter_iff none none = (λ h. refl, λ h. refl)
equal_iter_iff none (some k) = (λ h. cc, λ h. cc)
equal_iter_iff (some k) none = (λ h. cc, λ h. cc)
equal_iter_iff (some j) (some k) =
    (λ h. ap (λ x. some x) (same_eq j k h), λ h. ap (equal_iter (some j)) (sym h) ∙ same_refl j)

-- An iterator that has a key is that key.
key_of-eq : (t : Store) (k : Bytes) (i : Option Bytes) → key_of t i ≡ some k → i ≡ some k
key_of-eq t k none h = cc
key_of-eq t k (some j) h = by_entry (lookup t j) h
  where
    by_entry : (o : Option ℕ) → iter_of j o ≡ some k → some j ≡ some k
    by_entry none e = cc
    by_entry (some v) e = e

get_either_store :
    (t : Store) (k : Bytes)
    → (key_of t (iter_of k (lookup t k)) ≡ some k) ⊎ (iter_of k (lookup t k) ≡ none)
get_either_store t k = by_entry (lookup t k) refl
  where
    by_entry :
        (o : Option ℕ) → lookup t k ≡ o → (key_of t (iter_of k o) ≡ some k) ⊎ (iter_of k o ≡ none)
    by_entry none e = inr refl
    by_entry (some v) e = inl (ap (iter_of k) e)

get_live_store :
    (t : Store) (k : Bytes) (i : Option Bytes) → key_of t i ≡ some k → iter_of k (lookup t k) ≡ i
get_live_store t k i h = sym (ap (key_of t) (key_of-eq t k i h)) ∙ h ∙ sym (key_of-eq t k i h)

-- Behind an entry of `k` in front, every other key is where it was.
key_of-cons :
    (t : Store) (k : Bytes) (v : ℕ) (i : Option Bytes)
    → equal_iter (some k) i ≡ false
    → (key_of ((k, v) ∷ t) i ≡ key_of t i) × (value_at ((k, v) ∷ t) i ≡ value_at t i)
key_of-cons t k v none h = (refl, refl)
key_of-cons t k v (some j) h = rw (h) (refl, refl)

put_live_store : (t : Store) (k : Bytes) (v : ℕ) → key_of ((k, v) ∷ t) (some k) ≡ some k
put_live_store t k v = rw (same_refl k) refl

put_keeps_store :
    (t : Store) (k other : Bytes) (v : ℕ) (i : Option Bytes)
    → same k other ≡ false
    → key_of t i ≡ some other
    → (j : Option Bytes) × (key_of ((k, v) ∷ t) j ≡ some other)
      × (value_at ((k, v) ∷ t) j ≡ value_at t i)
put_keeps_store t k other v i d h =
    let e = key_of-eq t other i h in
    let c = key_of-cons t k v i (ap (equal_iter (some k)) e ∙ d) in (i, c.0 ∙ h, c.1)

put_adds_store :
    (t : Store) (k other : Bytes) (v : ℕ) (j : Option Bytes)
    → same k other ≡ false
    → key_of ((k, v) ∷ t) j ≡ some other
    → (i : Option Bytes) × (key_of t i ≡ some other)
put_adds_store t k other v j d h =
    let e = key_of-eq ((k, v) ∷ t) other j h in
    (j, sym (key_of-cons t k v j (ap (equal_iter (some k)) e ∙ d)).0 ∙ h)

set_keys_store :
    (t : Store) (k : Bytes) (i j : Option Bytes) (v : ℕ)
    → key_of t i ≡ some k
    → key_of (store_at t i v) j ≡ key_of t j
set_keys_store t k none j v h = refl
set_keys_store t k (some i) j v h = elim (Bool-cases (equal_iter (some i) j)) [
  | inl e ↦
      let n = sym ((equal_iter_iff (some i) j).0 e) in
      ap (key_of ((i, v) ∷ t)) n
      ∙ put_live_store t i v
      ∙ key_of-eq t k (some i) h
      ∙ sym (ap (key_of t) n ∙ h)
  | inr e ↦ (key_of-cons t i v j e).0
]

set_value_store :
    (t : Store) (k : Bytes) (i : Option Bytes) (v : ℕ)
    → key_of t i ≡ some k
    → value_at (store_at t i v) i ≡ v
set_value_store t k none v h = cc
set_value_store t k (some i) v h = rw (same_refl i) refl

set_other_store :
    (t : Store) (i j : Option Bytes) (v : ℕ)
    → equal_iter i j ≡ false
    → value_at (store_at t i v) j ≡ value_at t j
set_other_store t none j v h = refl
set_other_store t (some i) j v h = (key_of-cons t i v j h).1

del_frees_store : (t : Store) (i : Option Bytes) → key_of (remove_at t i) i ≡ none
del_frees_store t none = refl
del_frees_store t (some k) = ap (iter_of k) (lookup-remove t k)

del_keys_store :
    (t : Store) (i j : Option Bytes)
    → equal_iter i j ≡ false
    → (key_of (remove_at t i) j ≡ key_of t j) × (value_at (remove_at t i) j ≡ value_at t j)
del_keys_store t none j h = (refl, refl)
del_keys_store t (some k) none h = (refl, refl)
del_keys_store t (some k) (some j) h =
    (ap (iter_of j) (kept_entry t k j h), ap value_of (kept_entry t k j h))

abbrev store-IsKhash : IsKhash store
store-IsKhash = record {
  key_at = key_of;
  equal_iff = equal_iter_iff;
  end_free = λ t. refl;
  get_either = get_either_store;
  get_live = get_live_store;
  exist_live = λ t k i h. ap (λ o. ok (is_entry o)) h;
  put_live = λ t k. put_live_store t k (value_of (lookup t k));
  put_keeps = λ t k other i. put_keeps_store t k other (value_of (lookup t k)) i;
  put_adds = λ t k other j. put_adds_store t k other (value_of (lookup t k)) j;
  set_keys = set_keys_store;
  set_value = set_value_store;
  set_other = λ t k i j v h d. set_other_store t i j v d;
  del_frees = del_frees_store;
  del_keys = λ t i j h. (del_keys_store t i j h).0;
  del_values = λ t i j h. (del_keys_store t i j h).1;
}

abbrev nothing_stored : Store
nothing_stored = []

hash_get-updates_example :
    (hash_get store (hash_set store nothing_stored (codes "a") 1) (codes "a") ≡ some 1)
    × (hash_get store (hash_set store nothing_stored (codes "a") 1) (codes "b")
        ≡ hash_get store nothing_stored (codes "b"))
    × (hash_get store (hash_remove store nothing_stored (codes "a")) (codes "a") ≡ none)
    × (hash_get store (hash_remove store nothing_stored (codes "a")) (codes "b")
        ≡ hash_get store nothing_stored (codes "b"))
    × (hash_has store (hash_set store nothing_stored (codes "a") 1) (codes "a") ≡ ok true)
unfolding same
hash_get-updates_example =
    hash_get-updates store store-IsKhash nothing_stored (codes "a") (codes "b") 1 refl

abbrev table : StrTable
table = record { calls = store; kh_init = []; kh_size = length }

empty-key_of : (t : Store) (i : Option Bytes) → length t ≡ 0 → key_of t i ≡ none
empty-key_of [] none h = refl
empty-key_of [] (some k) h = refl
empty-key_of (e ∷ t) i h = cc

abbrev table-IsStrTable : IsStrTable table
table-IsStrTable = record { promises = store-IsKhash; init_size = refl; no_entries = empty-key_of }

-- A state with two strings.
abbrev two_strings : State table
two_strings = add_string table 1 (add_string table 3 (state_init table 5) (codes "a")) (codes "b")

two_strings-IsInterned : IsInterned table table-IsStrTable two_strings
two_strings-IsInterned =
    add_string-IsInterned table table-IsStrTable 1
      (add_string table 3 (state_init table 5) (codes "a")) (codes "b")
      (add_string-IsInterned table table-IsStrTable 3 (state_init table 5) (codes "a")
        (state_init-IsInterned table table-IsStrTable 5))

string_object-IsInterned_example : Outcome table table-IsStrTable two_strings (codes "c")
string_object-IsInterned_example =
    string_object-IsInterned table table-IsStrTable two_strings (codes "c") two_strings-IsInterned
