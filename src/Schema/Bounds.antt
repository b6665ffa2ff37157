-- ===== src/Schema/Bounds.antt =====
-- Measures of a schema, for the walk of web/src/lib/schemaForm.ts: the size of a node, and the
-- texts in it, among which its references are.
use skyvirt_kubeui.Prelude.{
  ℕ, suc, ◌+◌, ◌≤◌, String, ◌≡◌, Bool, true, false, not, List, [], ◌∷◌, ◌++◌, some, none, Option,
  map, if◌then◌else◌, ◌==◌, eq_iff, arith, length, keep,
}
use skyvirt_kubeui.Json.{
  Json, undefined, null, bool, num, str, arr, obj, Fields, end, entry, field, fields_of,
}
use skyvirt_kubeui.Overlay.{get_at_path}
use skyvirt_kubeui.Schema.Reading.{
  is_seen, text_at, text_of, resolve_ref, resolve_local, local_part, unescape,
}
use skyvirt_kubeui.Prelude.Text.{pieces}

unfoldable pub unseen : List String → List String → List String
unseen seen texts = keep (λ r. not (is_seen r seen)) texts

pub is_seen-left :
    (r : String) (xs ys : List String) → is_seen r xs ≡ true → is_seen r (xs ++ ys) ≡ true
is_seen-left r [] ys h = absurd (cc)
is_seen-left r (x ∷ xs) ys h = ground (arith, is_seen-left r xs ys)

pub is_seen-right :
    (r : String) (xs ys : List String) → is_seen r ys ≡ true → is_seen r (xs ++ ys) ≡ true
is_seen-right r [] ys h = h
is_seen-right r (x ∷ xs) ys h = ground (arith, is_seen-right r xs ys)

pub length-unseen-le :
    (r : String) (seen texts : List String)
    → length (unseen (r ∷ seen) texts) ≤ length (unseen seen texts)
unfolding unseen
length-unseen-le r seen [] = omega arith
length-unseen-le r seen (x ∷ texts) = ground (arith, length-unseen-le r seen texts)

-- A reference that is in the schema and was not seen leaves one less to be seen.
pub length-unseen :
    (r : String) (seen texts : List String)
    → is_seen r texts ≡ true
    → is_seen r seen ≡ false
    → suc (length (unseen (r ∷ seen) texts)) ≤ length (unseen seen texts)
unfolding unseen
length-unseen r seen [] h new = absurd (cc)
length-unseen r seen (x ∷ texts) h new =
    ground
      (arith, length-unseen r seen texts, length-unseen-le r seen texts, eq_iff x r, eq_iff r x)

module _ {N : Type 0} where
  unfoldable mutual
    pub size : Json N → ℕ
    size (obj fs) = suc (size_fields fs)
    size _ = 0

    pub size_fields : Fields N → ℕ
    size_fields end = 0
    size_fields (entry k v fs) = suc (size v + size_fields fs)

  unfoldable mutual
    pub texts : Json N → List String
    texts (str s) = s ∷ []
    texts (obj fs) = texts_fields fs
    texts _ = []

    pub texts_fields : Fields N → List String
    texts_fields end = []
    texts_fields (entry k v fs) = texts v ++ texts_fields fs

  pub size-field-le : (k : String) (fs : Fields N) → size (field k fs) ≤ size_fields fs
  unfolding size size_fields field
  size-field-le k end = omega arith
  size-field-le k (entry j v fs) = ground (arith, size-field-le k fs)

  pick-texts :
      (b : Bool) (r : String) (v w : Json N) (rest : List String)
      → is_seen r (texts (if b then v else w)) ≡ true
      → (is_seen r (texts w) ≡ true → is_seen r rest ≡ true)
      → is_seen r (texts v ++ rest) ≡ true
  pick-texts true r v w rest h tail = is_seen-left r (texts v) rest h
  pick-texts false r v w rest h tail = is_seen-right r (texts v) rest (tail h)

  pub texts-field :
      (r k : String) (fs : Fields N)
      → is_seen r (texts (field k fs)) ≡ true
      → is_seen r (texts_fields fs) ≡ true
  unfolding texts texts_fields field
  texts-field r k end h = absurd (cc)
  texts-field r k (entry j v fs) h =
      pick-texts (j == k) r v (field k fs) (texts_fields fs) h (texts-field r k fs)

  texts-fields_of :
      (r : String) (v : Json N)
      → is_seen r (texts (obj (fields_of v))) ≡ true
      → is_seen r (texts v) ≡ true
  unfolding texts texts_fields
  texts-fields_of r (obj fs) h = h
  texts-fields_of r undefined h = absurd (cc)
  texts-fields_of r null h = absurd (cc)
  texts-fields_of r (bool b) h = absurd (cc)
  texts-fields_of r (num n) h = absurd (cc)
  texts-fields_of r (str s) h = absurd (cc)
  texts-fields_of r (arr xs) h = absurd (cc)

  -- The size of a node, and the texts below it, are within those of another.
  abbrev pub Within : Json N → Json N → Type 0
  Within root node =
      (size node ≤ size root)
      × ((r : String)
          → is_seen r (texts (obj (fields_of node))) ≡ true
          → is_seen r (texts root) ≡ true)

  pub Within-field :
      (root : Json N) (k : String) (fs : Fields N) → Within root (obj fs) → Within root (field k fs)
  unfolding size texts
  Within-field root k fs (small, known) = (
    omega (arith, size-field-le k fs),
    λ r h. known r (texts-field r k fs (texts-fields_of r (field k fs) h)),
  )

  pub Within-value :
      (root : Json N) (k : String) (v : Json N) (fs : Fields N)
      → Within root (obj (entry k v fs))
      → Within root v
  unfolding size texts
  Within-value root k v fs (small, known) = (
    omega arith,
    λ r h. known r (is_seen-left r (texts v) (texts_fields fs) (texts-fields_of r v h)),
  )

  pub Within-rest :
      (root : Json N) (k : String) (v : Json N) (fs : Fields N)
      → Within root (obj (entry k v fs))
      → Within root (obj fs)
  unfolding size texts
  Within-rest root k v fs (small, known) =
      (omega arith, λ r h. known r (is_seen-right r (texts v) (texts_fields fs) h))

  pub Within-undefined : (root : Json N) → Within root undefined
  unfolding size texts
  Within-undefined root = (omega arith, λ r h. absurd (cc))

  pub Within-get_at_path :
      (root cur : Json N) (path : List String)
      → Within root cur
      → Within root (get_at_path cur path)
  unfolding get_at_path
  Within-get_at_path root cur [] w = w
  Within-get_at_path root (obj fs) (seg ∷ path) w =
      Within-get_at_path root (field seg fs) path (Within-field root seg fs w)
  Within-get_at_path root undefined (seg ∷ path) w = Within-undefined root
  Within-get_at_path root null (seg ∷ path) w = Within-undefined root
  Within-get_at_path root (bool b) (seg ∷ path) w = Within-undefined root
  Within-get_at_path root (num n) (seg ∷ path) w = Within-undefined root
  Within-get_at_path root (str s) (seg ∷ path) w = Within-undefined root
  Within-get_at_path root (arr xs) (seg ∷ path) w = Within-undefined root

  pub Within-resolve_ref :
      (root : Fields N) (ref : String) → Within (obj root) (resolve_ref root ref)
  unfolding resolve_ref
  Within-resolve_ref root ref = resolve (local_part ref)
    where
      resolve : (s : Option String) → Within (obj root) (resolve_local root s)
      resolve none = Within-undefined (obj root)
      resolve (some s) =
          Within-get_at_path (obj root) (obj root) (map unescape (pieces s)) (omega arith, λ r h. h)

  -- A text that a node has as a property is among its texts.
  pub is_seen-text_at :
      (k s : String) (fs : Fields N) → text_at k fs ≡ some s → is_seen s (texts (obj fs)) ≡ true
  unfolding texts
  is_seen-text_at k s fs h = texts-field s k fs (of_text (field k fs) h)
    where
      of_text : (v : Json N) → text_of v ≡ some s → is_seen s (texts v) ≡ true
      of_text (str t) e = ground (arith, eq_iff t s)
      of_text undefined e = absurd (cc)
      of_text null e = absurd (cc)
      of_text (bool b) e = absurd (cc)
      of_text (num n) e = absurd (cc)
      of_text (arr xs) e = absurd (cc)
      of_text (obj fs) e = absurd (cc)

  pub size-fields_of : (v : Json N) (m : ℕ) → size v ≤ m → size (obj (fields_of v)) ≤ suc m
  unfolding size size_fields
  size-fields_of (obj fs) m h = omega arith
  size-fields_of undefined m h = omega arith
  size-fields_of null m h = omega arith
  size-fields_of (bool b) m h = omega arith
  size-fields_of (num n) m h = omega arith
  size-fields_of (str s) m h = omega arith
  size-fields_of (arr xs) m h = omega arith

  Within-end : (root : Fields N) → Within (obj root) (obj end)
  unfolding size texts size_fields texts_fields
  Within-end root = (omega arith, λ r h. absurd (cc))

  pub Within-fields_of :
      (root : Fields N) (v : Json N) → Within (obj root) v → Within (obj root) (obj (fields_of v))
  Within-fields_of root (obj fs) w = w
  Within-fields_of root undefined w = Within-end root
  Within-fields_of root null w = Within-end root
  Within-fields_of root (bool b) w = Within-end root
  Within-fields_of root (num n) w = Within-end root
  Within-fields_of root (str s) w = Within-end root
  Within-fields_of root (arr xs) w = Within-end root

  pub Within-root : (schema : Json N) → Within (obj (fields_of schema)) schema
  unfolding size texts size_fields texts_fields
  Within-root (obj fs) = (omega arith, λ r h. h)
  Within-root (str s) = (omega arith, λ r h. absurd (cc))
  Within-root undefined = (omega arith, λ r h. absurd (cc))
  Within-root null = (omega arith, λ r h. absurd (cc))
  Within-root (bool b) = (omega arith, λ r h. absurd (cc))
  Within-root (num n) = (omega arith, λ r h. absurd (cc))
  Within-root (arr xs) = (omega arith, λ r h. absurd (cc))
