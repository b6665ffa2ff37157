-- ===== src/Labels/Matching.antt =====
-- What a selector selects, against what its terms mean for labels.
use mathlib.Core.Path.{subst}
use mathlib.Core.Option.{some-injective}
use skyvirt_kubeui.Prelude.{
  is_some, not, ◌&&◌, ◌||◌, String, ◌==◌, ◌≡◌, ◌≢◌, ◌↔◌, refl, sym, eq_iff, eq_refl, arith, Bool,
  true, false, Option, none, some, List, [], ◌∷◌, All, inl, inr, Bool-cases,
}
use skyvirt_kubeui.Prelude.Dict.{get}
use skyvirt_kubeui.Labels.{
  Term, eq, neq, exists, nexists, in_set, not_in_set, Labels, match_term, match_terms, includes,
  inherited, equals, among,
}

pub data In : String → List String → Type 0 where
  here : {s : String} {xs : List String} → In s (s ∷ xs)
  there : {s x : String} {xs : List String} → In s xs → In s (x ∷ xs)

-- What a term says of labels.
abbrev pub Says : Labels → Term → Type 0
Says l (eq k v) = get k l ≡ some v
Says l (neq k v) = get k l ≢ some v
Says l (exists k) = (v : String) × (get k l ≡ some v)
Says l (nexists k) = get k l ≡ none
Says l (in_set k set) = (v : String) × (get k l ≡ some v) × In v set
Says l (not_in_set k set) = (v : String) → get k l ≡ some v → ¬ In v set

-- A test for a key's presence is for a name that objects do not inherit.
abbrev pub IsOwn : Term → Type 0
IsOwn (exists k) = includes inherited k ≡ false
IsOwn (nexists k) = includes inherited k ≡ false
IsOwn t = Unit

found :
    (x : String) (xs : List String) (s : String)
    → (includes xs s ≡ true → In s xs)
    → includes (x ∷ xs) s ≡ true
    → In s (x ∷ xs)
found x xs s more h = elim (Bool-cases (x == s)) [
  | inl e ↦ subst (λ y. In s (y ∷ xs)) (sym ((eq_iff x s).0 e)) here
  | inr n ↦ there (more (rw n at h))
]

includes-In : (xs : List String) (s : String) → In s xs → includes xs s ≡ true
includes-In [] s m = elim m [ ]
includes-In (x ∷ xs) s here = rw eq_refl refl
includes-In (x ∷ xs) s (there m) = ground (arith, includes-In xs s m)

includes_iff : (xs : List String) (s : String) → (includes xs s ≡ true) ↔ In s xs
includes_iff [] s = (λ h. cc, λ m. elim m [ ])
includes_iff (x ∷ xs) s = (found x xs s (includes_iff xs s).0, includes-In (x ∷ xs) s)

-- The tests of a looked-up value.
equals_iff : (o : Option String) (v : String) → (equals o v ≡ true) ↔ (o ≡ some v)
equals_iff none v = (λ h. cc, λ h. cc)
equals_iff (some s) v = ground (arith, eq_iff s v)

among_iff :
    (o : Option String) (set : List String)
    → (among o set ≡ true) ↔ ((v : String) × (o ≡ some v) × In v set)
among_iff none set = (λ h. cc, λ h. cc)
among_iff (some s) set = (
  λ h. (s, refl, (includes_iff set s).0 h),
  λ (v, e, m). (includes_iff set s).1 (subst (λ w. In w set) (sym (some-injective _ _ e)) m),
)

not_iff {ℓ} : {P : Type ℓ} (b : Bool) → ((b ≡ true) ↔ P) → (not b ≡ true) ↔ ¬ P
not_iff true (f, g) = (λ h. cc, λ n. elim (n (f refl)) [ ])
not_iff false (f, g) = (λ h p. not_true (g p), λ n. refl)
  where
    not_true : false ≡ true → ⊥
    not_true h = cc

-- The presence test of a name that is not inherited, and how little it matters to a set test.
present_iff :
    (o : Option String) (inh : Bool)
    → inh ≡ false
    → (is_some o || inh ≡ true) ↔ ((v : String) × (o ≡ some v))
present_iff none inh e = (λ h. cc, λ (v, h). cc)
present_iff (some s) inh e = (λ h. (s, refl), λ h. refl)

missing_iff :
    (o : Option String) (inh : Bool) → inh ≡ false → (not (is_some o || inh) ≡ true) ↔ (o ≡ none)
missing_iff none inh e = ground arith
missing_iff (some s) inh e = (λ h. cc, λ h. cc)

in-among :
    (o : Option String) (inh : Bool) (set : List String)
    → ((is_some o || inh) && among o set) ≡ among o set
in-among none true set = refl
in-among none false set = refl
in-among (some s) inh set = refl

not_in-among :
    (o : Option String) (inh : Bool) (set : List String)
    → (not (is_some o || inh) || not (among o set)) ≡ not (among o set)
not_in-among none true set = refl
not_in-among none false set = refl
not_in-among (some s) inh set = refl

match_term-Says : (l : Labels) (t : Term) → IsOwn t → (match_term l t ≡ true) ↔ Says l t
unfolding match_term
match_term-Says l (eq k v) o = equals_iff (get k l) v
match_term-Says l (neq k v) o = not_iff (equals (get k l) v) (equals_iff (get k l) v)
match_term-Says l (exists k) o = present_iff (get k l) (includes inherited k) o
match_term-Says l (nexists k) o = missing_iff (get k l) (includes inherited k) o
match_term-Says l (in_set k set) o =
    rw (in-among (get k l) (includes inherited k) set) (among_iff (get k l) set)
match_term-Says l (not_in_set k set) o =
    let n = not_iff (among (get k l) set) (among_iff (get k l) set) in
    rw (not_in-among (get k l) (includes inherited k) set)
      (λ h v e m. n.0 h (v, e, m), λ f. n.1 (λ (v, e, m). f v e m))

-- A selector whose presence tests are for names that objects do not inherit matches labels exactly
-- if each of its terms is true of them.
pub match_terms-Says :
    (terms : List Term) (l : Labels)
    → All IsOwn terms
    → (match_terms (some terms) (some l) ≡ true) ↔ All (Says l) terms
unfolding match_terms
match_terms-Says [] l o = (λ _. tt, λ _. refl)
match_terms-Says (t ∷ ts) l o =
    let h = match_term-Says l t o.0 in let r = match_terms-Says ts l o.1 in ground (arith, h, r)
