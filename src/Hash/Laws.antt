-- ===== src/Hash/Laws.antt =====
-- What src/hash.c stores, finds and removes.
use ifj.Prelude.{
  ◌≡◌, sym, ap, ◌∙◌, true, false, Bool-cases, inl, inr, Bytes, same, same_refl, none, some, ok,
  refl,
}
use ifj.Hash.{Khash, IsKhash, hash_set, hash_get, hash_has, hash_remove}

some_not_none : {A : Type 0} {a : A} → some a ≡ none → ⊥
some_not_none h = cc

some-same : {a b : Bytes} → some a ≡ some b → same a b ≡ true
some-same {a} {b} h = ap (same a) (sym (some_eq h)) ∙ same_refl a
  where
    some_eq : some a ≡ some b → a ≡ b
    some_eq h = cc

true_not_false : true ≡ false → ⊥
true_not_false h = cc

module _ {V : Type 0} (K : Khash V) (L : IsKhash K) where
  open K use {kh_get, kh_put, kh_del, kh_end, kh_exist, kh_value, kh_set_value, is_equal}
  open L use {key_at}

  -- A key in a bucket is found there, and is not the end.
  found_apart :
      (t : K.Table) (key : Bytes) (i : K.Iter)
      → key_at t i ≡ some key
      → is_equal i (kh_end t) ≡ false
  found_apart t key i h = elim (Bool-cases (is_equal i (kh_end t))) [
    | inl e ↦
        absurd
          (some_not_none (sym h ∙ ap (key_at t) ((L.equal_iff i (kh_end t)).0 e) ∙ L.end_free t))
    | inr e ↦ e
  ]

  pub hash_get-live :
      (t : K.Table) (key : Bytes) (i : K.Iter)
      → key_at t i ≡ some key
      → hash_get K t key ≡ some (kh_value t i)
  unfolding hash_get
  hash_get-live t key i h = rw (L.get_live t key i h, found_apart t key i h) refl

  pub hash_get-free :
      (t : K.Table) (key : Bytes)
      → ((i : K.Iter) → key_at t i ≡ some key → ⊥)
      → hash_get K t key ≡ none
  unfolding hash_get
  hash_get-free t key h = elim (L.get_either t key) [
    | inl e ↦ absurd (h (kh_get t key) e)
    | inr e ↦ rw (e, (L.equal_iff (kh_end t) (kh_end t)).1 refl) refl
  ]

  -- A key that is searched in vain has no bucket.
  end_missing :
      (t : K.Table) (key : Bytes)
      → kh_get t key ≡ kh_end t
      → (i : K.Iter) → key_at t i ≡ some key
      → ⊥
  end_missing t key e i h =
      some_not_none (sym h ∙ ap (key_at t) (sym (L.get_live t key i h) ∙ e) ∙ L.end_free t)

  -- Two keys that differ are in two buckets.
  keys_apart :
      (t : K.Table) (key other : Bytes) (i j : K.Iter)
      → same key other ≡ false
      → key_at t i ≡ some key
      → key_at t j ≡ some other
      → is_equal i j ≡ false
  keys_apart t key other i j d h k = elim (Bool-cases (is_equal i j)) [
    | inl e ↦
        absurd
          (true_not_false (sym (some-same (sym h ∙ ap (key_at t) ((L.equal_iff i j).0 e) ∙ k)) ∙ d))
    | inr e ↦ e
  ]

  pub hash_get-set :
      (t : K.Table) (key : Bytes) (val : V) → hash_get K (hash_set K t key val) key ≡ some val
  unfolding hash_set
  hash_get-set t key val =
      let p = L.put_live t key in
      hash_get-live _ key _ (L.set_keys _ key _ _ val p ∙ p)
      ∙ ap (λ v. some v) (L.set_value _ key _ val p)

  pub hash_get-set_other :
      (t : K.Table) (key other : Bytes) (val : V)
      → same key other ≡ false
      → hash_get K (hash_set K t key val) other ≡ hash_get K t other
  unfolding hash_set
  hash_get-set_other t key other val d = elim (L.get_either t other) [
    | inl e ↦
        let p = L.put_live t key in
        let (j, k, w) = L.put_keeps t key other (kh_get t other) d e in
        hash_get-live _ other j (L.set_keys _ key _ j val p ∙ k)
        ∙ ap (λ v. some v) (L.set_other _ other _ j val k (keys_apart _ key other _ j d p k) ∙ w)
        ∙ sym (hash_get-live t other _ e)
    | inr e ↦
        let p = L.put_live t key in
        hash_get-free _ other (λ j k.
          let (i, h) = L.put_adds t key other j d (sym (L.set_keys _ key _ j val p) ∙ k) in
          end_missing t other e i h)
        ∙ sym (hash_get-free t other (end_missing t other e))
  ]

  hash_get-remove : (t : K.Table) (key : Bytes) → hash_get K (hash_remove K t key) key ≡ none
  unfolding hash_remove
  hash_get-remove t key = hash_get-free _ key λ i h. elim (Bool-cases (is_equal (kh_get t key) i)) [
    | inl e ↦ some_not_none (
        sym h
        ∙ ap (key_at (kh_del t (kh_get t key))) (sym ((L.equal_iff (kh_get t key) i).0 e))
        ∙ L.del_frees t (kh_get t key))
    | inr e ↦ true_not_false (
        sym (
          (L.equal_iff (kh_get t key) i).1
            (L.get_live t key i (sym (L.del_keys t (kh_get t key) i e) ∙ h)))
        ∙ e)
  ]

  hash_get-remove_other :
      (t : K.Table) (key other : Bytes)
      → same key other ≡ false
      → hash_get K (hash_remove K t key) other ≡ hash_get K t other
  unfolding hash_remove
  hash_get-remove_other t key other d = elim (L.get_either t other) [
    | inl e ↦
        let a = removed_apart (kh_get t other) e in
        hash_get-live _ other (kh_get t other) (L.del_keys t (kh_get t key) (kh_get t other) a ∙ e)
        ∙ ap (λ v. some v) (L.del_values t (kh_get t key) (kh_get t other) a)
        ∙ sym (hash_get-live t other _ e)
    | inr e ↦
        hash_get-free _ other (λ i h. elim (Bool-cases (is_equal (kh_get t key) i)) [
          | inl a ↦ some_not_none (
              sym h
              ∙ ap (key_at (kh_del t (kh_get t key))) (sym ((L.equal_iff (kh_get t key) i).0 a))
              ∙ L.del_frees t (kh_get t key))
          | inr a ↦ end_missing t other e i (sym (L.del_keys t (kh_get t key) i a) ∙ h)
        ])
        ∙ sym (hash_get-free t other (end_missing t other e))
  ]
    where
      removed_apart : (j : K.Iter) → key_at t j ≡ some other → is_equal (kh_get t key) j ≡ false
      removed_apart j k = elim (L.get_either t key) [
        | inl h ↦ keys_apart t key other _ j d h k
        | inr h ↦ elim (Bool-cases (is_equal (kh_get t key) j)) [
          | inl a ↦ absurd (
              some_not_none (
                sym k
                ∙ ap (key_at t) (sym ((L.equal_iff (kh_get t key) j).0 a) ∙ h)
                ∙ L.end_free t))
          | inr a ↦ a
        ]
      ]

  -- The bucket of a key that has a value.
  pub hash_get-found :
      (t : K.Table) (key : Bytes) (v : V)
      → hash_get K t key ≡ some v
      → (key_at t (kh_get t key) ≡ some key) × (kh_value t (kh_get t key) ≡ v)
  hash_get-found t key v h = elim (L.get_either t key) [
    | inl e ↦ (e, some_value (sym (hash_get-live t key _ e) ∙ h))
    | inr e ↦ absurd (some_not_none (sym h ∙ hash_get-free t key (end_missing t key e)))
  ]
    where
      some_value : {a b : V} → some a ≡ some b → a ≡ b
      some_value h = cc

  -- Behind a set, the key has the new value and every other key the value it had; behind a
  -- removal the key has none, and every other key the value it had; and a key that was set is
  -- there.
  pub hash_get-updates :
      (t : K.Table) (key other : Bytes) (val : V)
      → same key other ≡ false
      → (hash_get K (hash_set K t key val) key ≡ some val)
        × (hash_get K (hash_set K t key val) other ≡ hash_get K t other)
        × (hash_get K (hash_remove K t key) key ≡ none)
        × (hash_get K (hash_remove K t key) other ≡ hash_get K t other)
        × (hash_has K (hash_set K t key val) key ≡ ok true)
  unfolding hash_has
  hash_get-updates t key other val d = (
    hash_get-set t key val,
    hash_get-set_other t key other val d,
    hash_get-remove t key,
    hash_get-remove_other t key other d,
    L.exist_live _ key _ (hash_get-found _ key val (hash_get-set t key val)).0,
  )
