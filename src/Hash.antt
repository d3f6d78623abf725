-- ===== src/Hash.antt =====
-- src/hash.c over the hash tables of deps/khash.h.
--
-- The tables of khash are a parameter: `Khash` has the calls that src/hash.c makes of them, and
-- `IsKhash` what khash promises of each call alone, by the buckets of a table and the keys in
-- them. `khiter_t` is `Iter`, with its `==`. A put may move the other keys to new buckets. Nothing
-- is promised of `kh_exist` at `kh_end`, which reads behind the flags of the table, and nothing of
-- a put that finds no memory.
use ifj.Prelude.{
  ℕ, ◌≡◌, ◌⊎◌, ◌↔◌, Bool, true, false, Bytes, same, Option, none, some, ◌==◌, if◌then◌else◌, Result,
  ok,
}
pub mod Laws

pub record Khash (V : Type 0) : Type 1 where
  pub Table : Type 0
  pub Iter : Type 0
  pub is_equal : Iter → Iter → Bool
  pub kh_get : Table → Bytes → Iter
  pub kh_put : Table → Bytes → Iter × Table
  pub kh_del : Table → Iter → Table
  pub kh_end : Table → Iter
  pub kh_exist : Table → Iter → Result Bool
  pub kh_value : Table → Iter → V
  pub kh_set_value : Table → Iter → V → Table

module _ {V : Type 0} (K : Khash V) where
  -- `ifj17_hash_set`
  unfoldable pub hash_set : K.Table → Bytes → V → K.Table
  hash_set t key val = let k = K.kh_put t key in K.kh_set_value k.1 k.0 val

  -- `ifj17_hash_get`, with `none` for NULL.
  unfoldable pub hash_get : K.Table → Bytes → Option V
  hash_get t key =
      let k = K.kh_get t key in if K.is_equal k (K.kh_end t) then none else some (K.kh_value t k)

  -- `ifj17_hash_has`
  unfoldable pub hash_has : K.Table → Bytes → Result Bool
  hash_has t key = K.kh_exist t (K.kh_get t key)

  -- `ifj17_hash_remove`
  unfoldable pub hash_remove : K.Table → Bytes → K.Table
  hash_remove t key = K.kh_del t (K.kh_get t key)

  -- What khash promises of the buckets: `key_at` is the key of a bucket that is in use.
  pub record IsKhash : Type 0 where
    pub key_at : K.Table → K.Iter → Option Bytes
    pub equal_iff : (i j : K.Iter) → (K.is_equal i j ≡ true) ↔ (i ≡ j)
    pub end_free : (t : K.Table) → key_at t (K.kh_end t) ≡ none
    -- A search ends in the bucket of the key, or at the end.
    pub get_either :
        (t : K.Table) (key : Bytes)
        → (key_at t (K.kh_get t key) ≡ some key) ⊎ (K.kh_get t key ≡ K.kh_end t)
    pub get_live :
        (t : K.Table) (key : Bytes) (i : K.Iter) → key_at t i ≡ some key → K.kh_get t key ≡ i
    pub exist_live :
        (t : K.Table) (key : Bytes) (i : K.Iter) → key_at t i ≡ some key → K.kh_exist t i ≡ ok true
    -- A put returns a bucket with the key; every other key keeps a bucket, with its value, and
    -- no other key is new.
    pub put_live :
        (t : K.Table) (key : Bytes) → key_at (K.kh_put t key).1 (K.kh_put t key).0 ≡ some key
    pub put_keeps :
        (t : K.Table) (key other : Bytes) (i : K.Iter)
        → same key other ≡ false
        → key_at t i ≡ some other
        → (j : K.Iter) × (key_at (K.kh_put t key).1 j ≡ some other)
          × (K.kh_value (K.kh_put t key).1 j ≡ K.kh_value t i)
    pub put_adds :
        (t : K.Table) (key other : Bytes) (j : K.Iter)
        → same key other ≡ false
        → key_at (K.kh_put t key).1 j ≡ some other
        → (i : K.Iter) × (key_at t i ≡ some other)
    -- An assignment to `kh_value` at a bucket in use changes the value there only.
    pub set_keys :
        (t : K.Table) (key : Bytes) (i j : K.Iter) (v : V)
        → key_at t i ≡ some key
        → key_at (K.kh_set_value t i v) j ≡ key_at t j
    pub set_value :
        (t : K.Table) (key : Bytes) (i : K.Iter) (v : V)
        → key_at t i ≡ some key
        → K.kh_value (K.kh_set_value t i v) i ≡ v
    pub set_other :
        (t : K.Table) (key : Bytes) (i j : K.Iter) (v : V)
        → key_at t j ≡ some key
        → K.is_equal i j ≡ false
        → K.kh_value (K.kh_set_value t i v) j ≡ K.kh_value t j
    -- A deletion frees its bucket, and leaves the others as they are.
    pub del_frees : (t : K.Table) (i : K.Iter) → key_at (K.kh_del t i) i ≡ none
    pub del_keys :
        (t : K.Table) (i j : K.Iter) → K.is_equal i j ≡ false → key_at (K.kh_del t i) j ≡ key_at t j
    pub del_values :
        (t : K.Table) (i j : K.Iter)
        → K.is_equal i j ≡ false
        → K.kh_value (K.kh_del t i) j ≡ K.kh_value t j
