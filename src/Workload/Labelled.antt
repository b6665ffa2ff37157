-- ===== src/Workload/Labelled.antt =====
-- The labels of the manifest, and the selector that finds the pods by them.
use skyvirt_kubeui.Prelude.{
  ℕ, String, ◌==◌, ◌≡◌, refl, sym, ap, ◌∙◌, arith, eq_iff, Bool, true, false, ◌&&◌, ◌||◌, List, [],
  ◌∷◌, if◌then◌else◌, inl, inr, Bool-cases,
}
use skyvirt_kubeui.Prelude.Text.{trim, is_filled}
use skyvirt_kubeui.Json.{Json, undefined, str, Fields, end, entry, put, field, has, Distinct, Fresh}
use skyvirt_kubeui.Json.Laws.{field-put, has-put}
use skyvirt_kubeui.Workload.{
  WorkloadKind, deployment, stateful_set, daemon_set, job, cron_job, KeyValue, put_if, put_all,
  spread, all_labels,
}

-- The value of the last pair for a key, among the pairs whose key is not blank.
abbrev pub last_value : String → List KeyValue → Json ℕ → Json ℕ
last_value k [] v = v
last_value k (l ∷ pairs) v =
    last_value k pairs (if is_filled (trim (l.key)) && (l.key == k) then str (l.value) else v)

-- There is such a pair.
abbrev pub is_given : String → List KeyValue → Bool
is_given k [] = false
is_given k (l ∷ pairs) = is_filled (trim (l.key)) && (l.key == k) || is_given k pairs

field-put_pair :
    (k : String) (l : KeyValue) (o : Fields ℕ)
    → field k (put_if (is_filled (trim (l.key))) (l.key) (str (l.value)) o)
      ≡ (if is_filled (trim (l.key)) && (l.key == k) then str (l.value) else field k o)
field-put_pair k l o = ground (arith, field-put (l.key) k (str (l.value)) o)

field-put_all :
    (k : String) (pairs : List KeyValue) (o : Fields ℕ)
    → field k (put_all pairs o) ≡ last_value k pairs (field k o)
unfolding put_all
field-put_all k [] o = refl
field-put_all k (l ∷ pairs) o =
    field-put_all k pairs _ ∙ ap (last_value k pairs) (field-put_pair k l o)

has-put_pair :
    (k : String) (l : KeyValue) (o : Fields ℕ)
    → has k (put_if (is_filled (trim (l.key))) (l.key) (str (l.value)) o)
      ≡ (is_filled (trim (l.key)) && (l.key == k) || has k o)
has-put_pair k l o = ground (arith, has-put (l.key) k (str (l.value)) o)

has-put_all :
    (k : String) (pairs : List KeyValue) (o : Fields ℕ)
    → has k (put_all pairs o) ≡ (is_given k pairs || has k o)
unfolding put_all
has-put_all k [] o = refl
has-put_all k (l ∷ pairs) o = ground (
  arith,
  has-put_all k pairs (put_if (is_filled (trim (l.key))) (l.key) (str (l.value)) o),
  has-put_pair k l o,
)

last_value_given :
    (k : String) (pairs : List KeyValue) (u v : Json ℕ)
    → is_given k pairs ≡ true
    → last_value k pairs u ≡ last_value k pairs v
last_value_given k [] u v h = cc
last_value_given k (l ∷ pairs) u v h = ground (arith, last_value_given k pairs u v)

last_value_missing :
    (k : String) (pairs : List KeyValue) (v : Json ℕ)
    → is_given k pairs ≡ false
    → last_value k pairs v ≡ v
last_value_missing k [] v h = refl
last_value_missing k (l ∷ pairs) v h = ground (arith, last_value_missing k pairs v)

put-Fresh :
    (j k : String) (v : Json ℕ) (o : Fields ℕ) → (k == j) ≡ false → Fresh j o → Fresh j (put k v o)
put-Fresh j k v o e h = rw (has-put k j v o, e) h

put-Distinct : (k : String) (v : Json ℕ) (o : Fields ℕ) → Distinct o → Distinct (put k v o)
unfolding put
put-Distinct k v end d = unfold has in (refl, tt)
put-Distinct k v (entry j w o) (f, d) = elim (Bool-cases (j == k)) [
  | inl e ↦ rw e (f, d)
  | inr n ↦
      rw n (put-Fresh j k v o (ground (arith, eq_iff j k, eq_iff k j)) f, put-Distinct k v o d)
]

put_all-Distinct : (pairs : List KeyValue) (o : Fields ℕ) → Distinct o → Distinct (put_all pairs o)
unfolding put_all
put_all-Distinct [] o d = d
put_all-Distinct (l ∷ pairs) o d = elim (Bool-cases (is_filled (trim (l.key)))) [
  | inl e ↦ rw e (put_all-Distinct pairs _ (put-Distinct (l.key) (str (l.value)) o d))
  | inr n ↦ rw n (put_all-Distinct pairs o d)
]

field-spread :
    (k : String) (a b : Fields ℕ)
    → Distinct b
    → field k (spread a b) ≡ (if has k b then field k b else field k a)
unfolding spread field has
field-spread k a end d = refl
field-spread k a (entry j v b) (f, d) =
    ground (arith, field-spread k (put j v a) b d, field-put j k v a, eq_iff j k)

-- A label of the pods is the last value that the form gives for it, under a key that is not blank;
-- without one, the label "app" is the workload's name and no other label is there.
pub field-all_labels :
    (k name : String) (labels : List KeyValue)
    → field k (all_labels name labels)
      ≡ last_value k labels (if "app" == k then str name else undefined)
unfolding all_labels has field
field-all_labels k name labels =
    field-spread k (entry "app" (str name) end) (put_all labels end)
      (put_all-Distinct labels end tt)
    ∙ elim (Bool-cases (is_given k labels)) [
      | inl g ↦
          rw (has-put_all k labels end, g)
            (field-put_all k labels end ∙ last_value_given k labels _ _ g)
      | inr m ↦ rw (has-put_all k labels end, m) (sym (last_value_missing k labels _ m))
    ]

-- The kinds that find their pods by a selector.
abbrev pub HasSelector : WorkloadKind → Type 0
HasSelector deployment = Unit
HasSelector stateful_set = Unit
HasSelector daemon_set = Unit
HasSelector job = ⊥
HasSelector cron_job = ⊥
