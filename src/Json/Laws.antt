-- ===== src/Json/Laws.antt =====
-- Reads after writes of an object's properties.
use skyvirt_kubeui.Prelude.{
  String, ◌≡◌, refl, true, false, arith, if◌then◌else◌, ◌==◌, eq_iff, eq_refl,
}
use skyvirt_kubeui.Json.{Json, undefined, Fields, end, entry, field, has, put, remove, is_empty}

module _ {N : Type 0} where
  pub field-put :
      (k j : String) (v : Json N) (fs : Fields N)
      → field j (put k v fs) ≡ (if k == j then v else field j fs)
  unfolding field put
  field-put k j v end = refl
  field-put k j v (entry i w fs) =
      ground (arith, eq_iff k j, eq_iff i k, eq_iff i j, field-put k j v fs)

  pub field-put_self : (k : String) (v : Json N) (fs : Fields N) → field k (put k v fs) ≡ v
  field-put_self k v fs = rw (field-put, eq_refl)

  pub has-put :
      (k j : String) (v : Json N) (fs : Fields N)
      → has j (put k v fs) ≡ (if k == j then true else has j fs)
  unfolding has put
  has-put k j v end = refl
  has-put k j v (entry i w fs) =
      ground (arith, eq_iff k j, eq_iff i k, eq_iff i j, has-put k j v fs)

  pub field-remove :
      (k j : String) (fs : Fields N)
      → field j (remove k fs) ≡ (if k == j then undefined else field j fs)
  unfolding field remove
  field-remove k j end = ground arith
  field-remove k j (entry i v fs) =
      ground (arith, field-remove k j fs, eq_iff i k, eq_iff i j, eq_iff k j)

  pub field_missing : (k : String) (fs : Fields N) → has k fs ≡ false → field k fs ≡ undefined
  unfolding field has
  field_missing k end h = refl
  field_missing k (entry j v fs) h = ground (arith, field_missing k fs)

  pub remove_missing : (k : String) (fs : Fields N) → has k fs ≡ false → remove k fs ≡ fs
  unfolding has remove
  remove_missing k end h = refl
  remove_missing k (entry j v fs) h = ground (arith, remove_missing k fs)

  -- A new key goes to the end, so removing it again gives the object back.
  pub remove-put_missing :
      (k : String) (v : Json N) (fs : Fields N) → has k fs ≡ false → remove k (put k v fs) ≡ fs
  unfolding has put remove
  remove-put_missing k v end h = rw eq_refl
  remove-put_missing k v (entry j w fs) h = ground (arith, remove-put_missing k v fs)

  -- Writing back what a key holds, after another write to it, gives the object back.
  pub put-put-field :
      (k : String) (v : Json N) (fs : Fields N)
      → has k fs ≡ true
      → put k (field k fs) (put k v fs) ≡ fs
  unfolding has put field
  put-put-field k v end h = ground arith
  put-put-field k v (entry j w fs) h = ground (arith, put-put-field k v fs)

  pub is_empty-put : (k : String) (v : Json N) (fs : Fields N) → is_empty (put k v fs) ≡ false
  unfolding put
  is_empty-put k v end = refl
  is_empty-put k v (entry j w fs) = ground arith

  pub field-empty : (k : String) (fs : Fields N) → is_empty fs ≡ true → field k fs ≡ undefined
  unfolding field
  field-empty k end h = refl
  field-empty k (entry j v fs) h = ground arith
