-- ===== src/Api/Session/Laws.antt =====
-- When a call succeeds, when it ends the session, and what its error says.
use skyvirt_kubeui.Prelude.{
  ℕ, String, ◌==◌, ◌≡◌, refl, sym, ap, ◌∙◌, arith, eq_iff, ◌||◌, true, Option, none, some,
  if◌then◌else◌, eqb, inl, inr, ◌⊎◌, Bool-cases, eqb_iff,
}
use skyvirt_kubeui.Prelude.Dict.{Dict, get, remove, get-remove}
use skyvirt_kubeui.Json.{Json}
use skyvirt_kubeui.Api.{Request}
use skyvirt_kubeui.Api.Session.{
  Response, Session, ok, err, token_key, user_key, clear_auth, headers_of, is_ok, humanize_error,
  of_response, of_json, of_network, request,
}

get-clear_auth :
    (k : String) (s : Session)
    → get k (clear_auth s).storage
      ≡ (if k == token_key || k == user_key then none else get k s.storage)
unfolding clear_auth
get-clear_auth k s = ground (
  arith,
  get-remove user_key k (remove token_key s.storage),
  get-remove token_key k s.storage,
  eq_iff k user_key,
  eq_iff k token_key,
  eq_iff user_key k,
  eq_iff token_key k,
)

module _ (parse : String → Option (Json ℕ)) (print : ℕ → String) (text : Json ℕ → String) where
  of_json-ok : (o : Option (Json ℕ)) (j : Json ℕ) → of_json parse print text o ≡ ok j → o ≡ some j
  of_json-ok none j e = cc
  of_json-ok (some i) j e = cc

  of_response-ok :
      (res : Response) (s t : Session) (j : Json ℕ)
      → of_response parse print text res s ≡ (ok j, t)
      → (is_ok res ≡ true) × (parse res.body ≡ some j) × (t ≡ s)
  of_response-ok res s t j e = elim (Bool-cases (eqb res.status 401)) [
    | inl u ↦ let bad : err "Session expired" ≡ ok j = ap (λ p. p.0) (rw u at e) in cc
    | inr n ↦ elim (Bool-cases (is_ok res)) [
      | inl o ↦
          let given : (of_json parse print text (parse res.body), s) ≡ (ok j, t) = rw (n, o) at e in
          (o, of_json-ok (parse res.body) j (ap (λ p. p.0) given), sym (ap (λ p. p.1) given))
      | inr f ↦
          let bad : err (humanize_error parse print text res) ≡ ok j =
            ap (λ p. p.0) (rw (n, f) at e) in
          cc
    ]
  ]

  of_network-ok :
      (answer : Response ⊎ String) (s t : Session) (j : Json ℕ)
      → of_network parse print text answer s ≡ (ok j, t)
      → (res : Response) × (answer ≡ inl res)
        × (is_ok res ≡ true)
        × (parse res.body ≡ some j)
        × (t ≡ s)
  of_network-ok (inl res) s t j e =
      let (o, p, q) = of_response-ok res s t j e in (res, refl, o, p, q)
  of_network-ok (inr m) s t j e = let bad : err m ≡ ok j = ap (λ p. p.0) e in cc

  of_response-expired :
      (res : Response) (s : Session)
      → res.status ≡ 401
      → of_response parse print text res s
        ≡ (err "Session expired", record (clear_auth s) { location = "/login" })
  of_response-expired res s h = rw h refl

  of_network-kept :
      (answer : Response ⊎ String) (s : Session)
      → ((of_network parse print text answer s).1 ≡ s)
        ⊎ ((res : Response) × (answer ≡ inl res) × (res.status ≡ 401))
  of_network-kept (inr m) s = inl refl
  of_network-kept (inl res) s = elim (Bool-cases (eqb res.status 401)) [
    | inl u ↦ inr (res, refl, (eqb_iff res.status 401).0 u)
    | inr n ↦ elim (Bool-cases (is_ok res)) [
      | inl o ↦ inl (rw (n, o) refl)
      | inr f ↦ inl (rw (n, f) refl)
    ]
  ]

module _ (parse : String → Option (Json ℕ)) (print : ℕ → String) (text : Json ℕ → String)
    (network : Request → Dict String → Response ⊎ String) where
  -- A call gives a value only if the server answered with a status from 200 to 299 and the body
  -- parses to that value, and then the session is as it was.
  pub request-ok :
      (req : Request) (extra : Dict String) (s t : Session) (j : Json ℕ)
      → request parse print text network req extra s ≡ (ok j, t)
      → (res : Response) × (network req (headers_of extra s) ≡ inl res)
        × (is_ok res ≡ true)
        × (parse res.body ≡ some j)
        × (t ≡ s)
  unfolding request
  request-ok req extra s t j e =
      of_network-ok parse print text (network req (headers_of extra s)) s t j e

  -- The answer 401 ends the session: the token and the user are gone from the storage, the rest of
  -- it stays, the page goes to the login, and the call fails.
  pub request-expired :
      (req : Request) (extra : Dict String) (s : Session) (res : Response)
      → network req (headers_of extra s) ≡ inl res
      → res.status ≡ 401
      → let (result, t) = request parse print text network req extra s in
        (result ≡ err "Session expired")
        × (t.location ≡ "/login")
        × ((k : String)
            → get k t.storage ≡ (if k == token_key || k == user_key then none else get k s.storage))
  unfolding request
  request-expired req extra s res e h =
      let made : request parse print text network req extra s
          ≡ (err "Session expired", record (clear_auth s) { location = "/login" }) =
        ap (λ a. of_network parse print text a s) e
        ∙ of_response-expired parse print text res s h in
      (
        ap (λ p. p.0) made,
        ap (λ p. p.1.location) made,
        λ k. ap (λ p. get k p.1.storage) made ∙ get-clear_auth k s,
      )

  -- Nothing else ends it: a call leaves the session as it is, or the server answered 401.
  pub request-kept :
      (req : Request) (extra : Dict String) (s : Session)
      → ((request parse print text network req extra s).1 ≡ s)
        ⊎ ((res : Response) × (network req (headers_of extra s) ≡ inl res) × (res.status ≡ 401))
  unfolding request
  request-kept req extra s = of_network-kept parse print text (network req (headers_of extra s)) s
