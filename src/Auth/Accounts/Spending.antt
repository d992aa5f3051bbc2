-- ===== src/Auth/Accounts/Spending.antt =====
-- A link of a verification or of a reset works once.
use clipper_ai.Base.{
  subst, ℕ, ◌≡◌, refl, sym, ap, ◌∙◌, inl, inr, arith, String, true, false, Option, none, some, List,
  [], ◌∷◌, ◌==◌, eq_iff, Bool-cases, Option-cases, err_ne_ok, is_some, Result, ok, err,
}
use clipper_ai.Base.Dict.{Dict, lookup, insert, values, IsKeyed, lookup_of_Occurs, insert-IsKeyed}
use clipper_ai.Auth.Types.{AuthError, invalid_link, VerificationToken, TokenKind}
use clipper_ai.Auth.Store.{find, token_by_hash, save_token, Occurs-find}
use clipper_ai.Auth.Core.{AuthService, World}
use clipper_ai.Auth.Accounts.{spend_token, spent_at, usable_token}

abbrev pub token_key : VerificationToken → String
token_key t = t.token_id

-- Saving a row that stands in the dictionary, with the same hash, keeps it the first of its hash.
find-insert :
    (hash : String) (t u : VerificationToken) (d : Dict VerificationToken)
    → IsKeyed token_key d
    → u.token_id ≡ t.token_id
    → u.token_hash ≡ t.token_hash
    → find (λ (held : VerificationToken). held.token_hash == hash) (values d) ≡ some t
    → find (λ (held : VerificationToken). held.token_hash == hash) (values (insert t.token_id u d))
      ≡ some u
unfolding values insert lookup
find-insert hash t u [] k i h e = cc
find-insert hash t u ((j, v) ∷ d) k i h e = elim (Bool-cases (v.token_hash == hash)) [
  | inl b ↦
      let v≡t : v ≡ t = ground (arith, e, b) in ground (arith, b, v≡t, h, k.1, eq_iff j t.token_id)
  | inr b ↦
      let later : find (λ (held : VerificationToken). held.token_hash == hash) (values d) ≡ some t =
        ground (arith, e, b) in
      let held = lookup_of_Occurs token_key t d k.2 ((Occurs-find _ t (values d) later).0) in
      elim (Bool-cases (j == t.token_id)) [
        | inl same ↦ absurd (ground (arith, (eq_iff j t.token_id).0 same, held, k.0))
        | inr other ↦ rw other (ground (arith, b, find-insert hash t u d k.2 i h later))
      ]
]

-- Saving a row of another hash under its id keeps the first of a hash.
find-insert_other :
    (hash : String) (t u row : VerificationToken) (d : Dict VerificationToken)
    → (t.token_hash == hash) ≡ false
    → (u.token_hash == hash) ≡ false
    → lookup u.token_id d ≡ some t
    → find (λ (held : VerificationToken). held.token_hash == hash) (values d) ≡ some row
    → find (λ (held : VerificationToken). held.token_hash == hash) (values (insert u.token_id u d))
      ≡ some row
unfolding values insert lookup
find-insert_other hash t u row [] a b l e = cc
find-insert_other hash t u row ((j, v) ∷ d) a b l e = elim (Bool-cases (j == u.token_id)) [
  | inl same ↦ let v≡t : v ≡ t = ground (arith, l, same) in ground (arith, same, a, b, e, v≡t)
  | inr other ↦ elim (Bool-cases (v.token_hash == hash)) [
    | inl c ↦ rw other (ground (arith, c, e))
    | inr c ↦ rw other (ground (arith, c, e, l, other, find-insert_other hash t u row d a b))
  ]
]

usable_found :
    (kind : TokenKind) (now : ℕ) (o : Option VerificationToken) (t : VerificationToken)
    → usable_token kind now o ≡ some t
    → o ≡ some t
usable_found kind now none t e = cc
usable_found kind now (some u) t e = ground (arith, e)

used_refused :
    (kind : TokenKind) (now : ℕ) (t : VerificationToken)
    → is_some t.used_at ≡ true
    → usable_token kind now (some t) ≡ none
used_refused kind now t u = rw u (ground arith)

module _ (service : AuthService) where
  refused :
      (token : String) (kind : TokenKind) (now : ℕ) (w : World)
      → usable_token kind now (token_by_hash (service.hashing.sha256 token) w.store) ≡ none
      → spend_token service token kind now w ≡ (err invalid_link, w)
  unfolding spend_token
  refused token kind now w e = elim (Bool-cases (token == "")) [
    | inl b ↦ rw b refl
    | inr b ↦ rw b (rw e refl)
  ]

  spent :
      (token : String) (kind : TokenKind) (now : ℕ) (w : World) (t : VerificationToken)
      → usable_token kind now (token_by_hash (service.hashing.sha256 token) w.store) ≡ some t
      → (token == "") ≡ false
      → spend_token service token kind now w
        ≡ (ok (spent_at now t), record w { store = save_token (spent_at now t) w.store })
  unfolding spend_token
  spent token kind now w t e b = rw b (rw e refl)

  refused_empty :
      (token : String) (kind : TokenKind) (now : ℕ) (w : World)
      → (token == "") ≡ true
      → spend_token service token kind now w ≡ (err invalid_link, w)
  unfolding spend_token
  refused_empty token kind now w b = rw b refl

  not_refused :
      (token : String) (kind : TokenKind) (now : ℕ) (w : World) (t : VerificationToken)
      → (spend_token service token kind now w).0 ≡ ok t
      → spend_token service token kind now w ≡ (err invalid_link, w)
      → ⊥
  not_refused token kind now w t e r =
      err_ne_ok (sym (ap (λ (x : Result AuthError VerificationToken × World). x.0) r) ∙ e)

  -- The first row of the hash has been used.
  record IsSpent (hash : String) (w : World) : Type 0 where
    row : VerificationToken
    found : token_by_hash hash w.store ≡ some row
    used : is_some row.used_at ≡ true
    keyed : IsKeyed token_key w.store.tokens

  IsSpent-refused :
      (token : String) (kind : TokenKind) (now : ℕ) (w : World)
      → IsSpent (service.hashing.sha256 token) w
      → spend_token service token kind now w ≡ (err invalid_link, w)
  IsSpent-refused token kind now w h =
      refused token kind now w (rw h.found (used_refused kind now h.row h.used))

  IsSpent-spend_token :
      (token : String) (kind : TokenKind) (now : ℕ) (w : World) (t : VerificationToken)
      → IsKeyed token_key w.store.tokens
      → (spend_token service token kind now w).0 ≡ ok t
      → IsSpent (service.hashing.sha256 token) (spend_token service token kind now w).1
  IsSpent-spend_token token kind now w t keyed e =
      let hash = service.hashing.sha256 token in
      elim (Option-cases (usable_token kind now (token_by_hash hash w.store))) [
        | inl o ↦ absurd (not_refused token kind now w t e (refused token kind now w o))
        | inr (held, o) ↦ elim (Bool-cases (token == "")) [
          | inl b ↦ absurd (not_refused token kind now w t e (refused_empty token kind now w b))
          | inr b ↦
              subst (λ (r : Result AuthError VerificationToken × World). IsSpent hash r.1)
                (sym (spent token kind now w held o b))
                (record {
                  row = spent_at now held;
                  found =
                      find-insert hash held (spent_at now held) w.store.tokens keyed refl refl
                        (usable_found kind now _ held o);
                  used = refl;
                  keyed =
                      insert-IsKeyed token_key held.token_id (spent_at now held) w.store.tokens refl
                        keyed;
                })
        ]
      ]

  other-IsSpent :
      (hash presented : String) (now : ℕ) (held : VerificationToken) (w : World)
      → IsSpent hash w
      → (presented == hash) ≡ false
      → token_by_hash presented w.store ≡ some held
      → IsSpent hash (record w { store = save_token (spent_at now held) w.store })
  other-IsSpent hash presented now held w h other e =
      let (stands, same) = Occurs-find _ held (values w.store.tokens) e in
      let apart : (held.token_hash == hash) ≡ false =
        ground (arith, other, same, eq_iff held.token_hash presented) in
      record {
        row = h.row;
        found =
            find-insert_other hash held (spent_at now held) h.row w.store.tokens apart apart
              (lookup_of_Occurs token_key held w.store.tokens h.keyed stands) h.found;
        used = h.used;
        keyed =
            insert-IsKeyed token_key held.token_id (spent_at now held) w.store.tokens refl h.keyed;
      }

  IsSpent-step :
      (hash token : String) (kind : TokenKind) (now : ℕ) (w : World)
      → IsSpent hash w
      → IsSpent hash (spend_token service token kind now w).1
  IsSpent-step hash token kind now w h =
      let presented = service.hashing.sha256 token in
      let keeps = λ (q : spend_token service token kind now w ≡ (err invalid_link, w)).
        subst (λ (r : Result AuthError VerificationToken × World). IsSpent hash r.1) (sym q) h in
      elim (Option-cases (usable_token kind now (token_by_hash presented w.store))) [
        | inl o ↦ keeps (refused token kind now w o)
        | inr (held, o) ↦ elim (Bool-cases (token == "")) [
          | inl b ↦ keeps (refused_empty token kind now w b)
          | inr b ↦ elim (Bool-cases (presented == hash)) [
            | inl same ↦ keeps (
                IsSpent-refused token kind now w
                  (subst (λ x. IsSpent x w) (sym ((eq_iff presented hash).0 same)) h))
            | inr other ↦
                subst (λ (r : Result AuthError VerificationToken × World). IsSpent hash r.1)
                  (sym (spent token kind now w held o b))
                  (other-IsSpent hash presented now held w h other (usable_found kind now _ held o))
          ]
        ]
      ]

  -- Links that are presented one after the other, each with its kind and its time.
  unfoldable pub spend_all : List (String × (TokenKind × ℕ)) → World → World
  spend_all [] w = w
  spend_all ((token, (kind, now)) ∷ spends) w =
      spend_all spends (spend_token service token kind now w).1

  IsSpent-spend_all :
      (hash : String) (spends : List (String × (TokenKind × ℕ))) (w : World)
      → IsSpent hash w
      → IsSpent hash (spend_all spends w)
  unfolding spend_all
  IsSpent-spend_all hash [] w h = h
  IsSpent-spend_all hash ((token, (kind, now)) ∷ spends) w h =
      IsSpent-spend_all hash spends _ (IsSpent-step hash token kind now w h)

  -- A token that has been spent is refused whatever links are presented in between, for every kind
  -- and at every instant, if the tokens are kept under their own ids.
  pub spend_token-once :
      (token : String) (kind later_kind : TokenKind) (now later : ℕ) (w : World)
      (t : VerificationToken) (spends : List (String × (TokenKind × ℕ)))
      → IsKeyed token_key w.store.tokens
      → (spend_token service token kind now w).0 ≡ ok t
      → let w' = spend_all spends (spend_token service token kind now w).1 in
        spend_token service token later_kind later w' ≡ (err invalid_link, w')
  spend_token-once token kind later_kind now later w t spends keyed e =
      IsSpent-refused token later_kind later _ (
        IsSpent-spend_all (service.hashing.sha256 token) spends _
          (IsSpent-spend_token token kind now w t keyed e))
