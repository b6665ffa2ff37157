-- ===== src/Url/Laws.antt =====
-- What is read from the query after a write to it.
use skyvirt_kubeui.Prelude.{
  String, ◌==◌, ◌≡◌, sym, ap, ◌∙◌, arith, eq_iff, eq_refl, true, false, ◌||◌, none, some,
  if◌then◌else◌, inl, inr, ◌⊎◌, Bool-cases,
}
use skyvirt_kubeui.Prelude.Dict.{get, get-put, get-remove}
use skyvirt_kubeui.Url.{Params, Param, read_param, write_param, parsed}

eq-or : (s a b : String) → (s == a || s == b) ≡ true → (s ≡ a) ⊎ (s ≡ b)
eq-or s a b h = ground (arith, eq_iff s a, eq_iff s b)

unwritten {ℓ ℓ' ℓ''} : {A : Type ℓ} {B : Type ℓ'} {C : Type ℓ''} → A ⊎ B → (A → C) → (B → C) → C
unwritten (inl a) f g = f a
unwritten (inr b) f g = g b

module _ {T : Type 0} where
  get-write_param :
      (p : Param T) (v : T) (sp : Params)
      → get (p.full_key) (write_param p v sp) ≡ (
          if p.serialize v == "" || p.serialize v == p.serialize (p.initial)
          then none
          else some (p.serialize v))
  unfolding write_param
  get-write_param p v sp = ground (
    arith,
    get-put (p.full_key) (p.full_key) (p.serialize v) sp,
    get-remove (p.full_key) (p.full_key) sp,
    eq_refl (p.full_key),
  )

  -- A value that is written is read back, if its text can be read back and only the initial value
  -- is written as the empty text or as the initial value is.
  pub read_param-write_param :
      (p : Param T) (v : T) (sp : Params)
      → p.parse (p.serialize v) ≡ v
      → (p.serialize v ≡ "" → v ≡ p.initial)
      → (p.serialize v ≡ p.serialize (p.initial) → v ≡ p.initial)
      → read_param p (write_param p v sp) ≡ v
  unfolding read_param
  read_param-write_param p v sp back blank same =
      elim (Bool-cases (p.serialize v == "" || p.serialize v == p.serialize (p.initial))) [
        | inl t ↦
            let missing : get (p.full_key) (write_param p v sp) ≡ none =
              get-write_param p v sp ∙ rw t in
            ap (parsed (p.parse) (p.initial)) missing
            ∙ sym (unwritten (eq-or (p.serialize v) "" (p.serialize (p.initial)) t) blank same)
        | inr f ↦
            let there : get (p.full_key) (write_param p v sp) ≡ some (p.serialize v) =
              get-write_param p v sp ∙ rw f in
            ap (parsed (p.parse) (p.initial)) there ∙ back
      ]

  pub get-write_param_ne :
      (p : Param T) (v : T) (sp : Params) (k : String)
      → (p.full_key == k) ≡ false
      → get k (write_param p v sp) ≡ get k sp
  unfolding write_param
  get-write_param_ne p v sp k ne =
      ground (arith, get-put (p.full_key) k (p.serialize v) sp, get-remove (p.full_key) k sp)

-- A write of one parameter leaves the value of every other one.
pub read_param-write_param_ne :
    {S T : Type 0} (p : Param T) (q : Param S) (v : T) (sp : Params)
    → (p.full_key == q.full_key) ≡ false
    → read_param q (write_param p v sp) ≡ read_param q sp
unfolding read_param
read_param-write_param_ne p q v sp ne =
    ap (parsed (q.parse) (q.initial)) (get-write_param_ne p v sp (q.full_key) ne)
