-- ===== src/Strings/Interned.antt =====
-- The strings of a state are stored once, under one address each.
use ifj.Prelude.{
  get_elem?, get_elem?-last, get_elem?-append, same_eq, ℕ, ◌+◌, ◌≡◌, refl, sym, ap, ◌∙◌, subst, inl,
  inr, true, false, zero, suc, Bool-cases, [], ◌∷◌, ◌++◌, length, Bytes, same, Option, none, some,
  ◌==◌, ==_iff, Fault, Bool, Result, ok, err, null_pointer, arith,
}
use ifj.Hash.{hash_set, hash_get}
use ifj.Hash.Laws.{hash_get-set, hash_get-set_other, hash_get-found, hash_get-live, hash_get-free}
use ifj.Strings.{
  object_of, StrTable, IsStrTable, State, state_init, add_string, alloc_string, exists,
  string_object,
}

some_not_none : {a : ℕ} → some a ≡ none → ⊥
some_not_none h = cc

some_value : {a b : ℕ} → some a ≡ some b → a ≡ b
some_value h = cc

module _ (K : StrTable) (L : IsStrTable K) where
  open K use {calls, kh_size}
  open L use {promises, init_size, no_entries}

  -- The address that the table has for a string.
  abbrev pub entry : State K → Bytes → Option ℕ
  entry s key = hash_get calls s.strs key

  -- Every entry points at the object of its key.
  abbrev pub IsInterned : State K → Type 0
  IsInterned s =
      (key : Bytes) (a : ℕ) → entry s key ≡ some a → get_elem? s.objects a ≡ some (object_of key)

  -- A table of size zero has no entry.
  size-entry : (s : State K) (key : Bytes) → kh_size s.strs ≡ 0 → entry s key ≡ none
  size-entry s key z =
      hash_get-free calls promises s.strs key
        (λ i h. some_not_none_bytes (sym h ∙ no_entries s.strs i z))
    where
      some_not_none_bytes : {b : Bytes} → some b ≡ none → ⊥
      some_not_none_bytes h = cc

  -- A new state holds no string.
  pub state_init-IsInterned : (room : ℕ) → IsInterned (state_init K room)
  unfolding state_init
  state_init-IsInterned room key a e =
      absurd (some_not_none (sym e ∙ size-entry (state_init K room) key init_size))

  -- One call, where the string is there.
  string_object-held :
      (s : State K) (val : Bytes) (a : ℕ)
      → entry s val ≡ some a
      → string_object K s val ≡ ok (some a, s)
  unfolding string_object exists
  string_object-held s val a e =
      let (k, v) = hash_get-found calls promises s.strs val a e in
      elim (Bool-cases (kh_size s.strs == 0)) [
        | inl z ↦
            absurd (some_not_none (sym e ∙ size-entry s val ((==_iff (kh_size s.strs) 0).0 z)))
        | inr z ↦ rw (z, promises.exist_live s.strs val _ k, v) refl
      ]

  -- The entries behind an allocation.
  pub add_string-entry :
      (n : ℕ) (s : State K) (val : Bytes)
      → entry (add_string K n s val) val ≡ some (length s.objects)
  unfolding add_string hash_set
  add_string-entry n s val = hash_get-set calls promises s.strs val (length s.objects)

  add_string-other :
      (n : ℕ) (s : State K) (val key : Bytes)
      → same val key ≡ false
      → entry (add_string K n s val) key ≡ entry s key
  unfolding add_string hash_set
  add_string-other n s val key h =
      hash_get-set_other calls promises s.strs val key (length s.objects) h

  pub add_string-keeps :
      (n : ℕ) (s : State K) (val key : Bytes) (a : ℕ)
      → entry s val ≡ none
      → entry s key ≡ some a
      → entry (add_string K n s val) key ≡ some a
  add_string-keeps n s val key a e k = elim (Bool-cases (same val key)) [
    | inl h ↦ absurd (some_not_none (sym k ∙ ap (entry s) (sym (same_eq val key h)) ∙ e))
    | inr h ↦ add_string-other n s val key h ∙ k
  ]

  pub add_string-IsInterned :
      (n : ℕ) (s : State K) (val : Bytes) → IsInterned s → IsInterned (add_string K n s val)
  unfolding add_string
  add_string-IsInterned n s val w key a e = elim (Bool-cases (same val key)) [
    | inl h ↦
        let k = same_eq val key h in
        let b = sym (ap (entry (add_string K n s val)) k) ∙ add_string-entry n s val in
        let z = some_value (sym b ∙ e) in
        subst (λ n. get_elem? (s.objects ++ object_of val ∷ []) n ≡ some (object_of key)) z
          (get_elem?-last s.objects (object_of val) ∙ ap (λ x. some (object_of x)) k)
    | inr h ↦ get_elem?-append s.objects _ a (w key a (sym (add_string-other n s val key h) ∙ e))
  ]

  -- Every string that was there keeps its address.
  abbrev pub KeepsEntries : State K → State K → Type 0
  KeepsEntries s t = (key : Bytes) (a : ℕ) → entry s key ≡ some a → entry t key ≡ some a

  -- What a call comes to. `held`: the string is there, and nothing changes. In the next three it
  -- is not, and the test says so: with no room the length is written through NULL; with room for
  -- the object only NULL is returned; with more room the string is stored, at the address behind
  -- those of all objects. `read_behind`: the string is not there, but `kh_exist`, asked at the end
  -- of a table that is not empty, says that it is, and what lies at the end is returned.
  -- `trapped`: that question itself meets a fault.
  pub data Outcome (s : State K) (val : Bytes) : Type 0 where
    held : (a : ℕ) → entry s val ≡ some a → string_object K s val ≡ ok (some a, s) → Outcome s val
    no_object :
        entry s val ≡ none → s.room ≡ 0 → string_object K s val ≡ err null_pointer → Outcome s val
    no_bytes :
        (t : State K)
        → entry s val ≡ none
        → s.room ≡ 1
        → string_object K s val ≡ ok (none, t)
        → t.strs ≡ s.strs
        → IsInterned t
        → Outcome s val
    stored :
        (a : ℕ) (t : State K)
        → entry s val ≡ none
        → s.room ≡ t.room + 2
        → a ≡ length s.objects
        → string_object K s val ≡ ok (some a, t)
        → entry t val ≡ some a
        → KeepsEntries s t
        → IsInterned t
        → Outcome s val
    read_behind :
        entry s val ≡ none
        → (kh_size s.strs == 0) ≡ false
        → calls.kh_exist s.strs (calls.kh_end s.strs) ≡ ok true
        → string_object K s val ≡ ok (some (calls.kh_value s.strs (calls.kh_end s.strs)), s)
        → Outcome s val
    trapped :
        (e : Fault)
        → entry s val ≡ none
        → (kh_size s.strs == 0) ≡ false
        → calls.kh_exist s.strs (calls.kh_end s.strs) ≡ err e
        → string_object K s val ≡ err e
        → Outcome s val

  -- A search in vain ends at the end.
  entry-end :
      (s : State K) (val : Bytes)
      → entry s val ≡ none
      → calls.kh_get s.strs val ≡ calls.kh_end s.strs
  entry-end s val e = elim (promises.get_either s.strs val) [
    | inl h ↦ absurd (some_not_none (sym (hash_get-live calls promises s.strs val _ h) ∙ e))
    | inr h ↦ h
  ]

  missing_Outcome :
      (s : State K) (val : Bytes)
      → IsInterned s
      → entry s val ≡ none
      → string_object K s val ≡ alloc_string K s val
      → Outcome s val
  unfolding alloc_string add_string
  missing_Outcome s val w e h = by_room s.room refl
    where
      by_room : (n : ℕ) → s.room ≡ n → Outcome s val
      by_room zero r = no_object e r (h ∙ rw (r) refl)
      by_room (suc zero) r = no_bytes (record s { room = 0 }) e r (h ∙ rw (r) refl) refl w
      by_room (suc (suc n)) r =
          stored (length s.objects) (add_string K n s val) e (omega (arith, r)) refl
            (h ∙ rw (r) refl) (add_string-entry n s val)
            (λ key a k. add_string-keeps n s val key a e k) (add_string-IsInterned n s val w)

  -- Where every entry of the table points at the object of its key, a call with a string that the
  -- table has returns its address and changes nothing. For any other string it stores the string
  -- under a new address that the table has from then on, and every string keeps its own; or it
  -- returns NULL with the table as it was, where one more allocation succeeds; or it writes
  -- through NULL, where none does; or it is misled by `kh_exist` at the end of the table, where
  -- it returns what lies there, and changes nothing, or meets a fault. Wherever it returns, every
  -- entry still points at the object of its key.
  pub string_object-IsInterned : (s : State K) (val : Bytes) → IsInterned s → Outcome s val
  unfolding string_object exists
  string_object-IsInterned s val w = by_entry (entry s val) refl
    where
      by_answer :
          entry s val ≡ none
          → (kh_size s.strs == 0) ≡ false
          → (r : Result Bool) → calls.kh_exist s.strs (calls.kh_end s.strs) ≡ r
          → Outcome s val
      by_answer e z (ok true) h = read_behind e z h (rw (z, entry-end s val e, h) refl)
      by_answer e z (ok false) h = missing_Outcome s val w e (rw (z, entry-end s val e, h) refl)
      by_answer e z (err f) h = trapped f e z h (rw (z, entry-end s val e, h) refl)

      by_entry : (o : Option ℕ) → entry s val ≡ o → Outcome s val
      by_entry (some a) e = held a e (string_object-held s val a e)
      by_entry none e = elim (Bool-cases (kh_size s.strs == 0)) [
        | inl z ↦ missing_Outcome s val w e (rw (z) refl)
        | inr z ↦ by_answer e z (calls.kh_exist s.strs (calls.kh_end s.strs)) refl
      ]
