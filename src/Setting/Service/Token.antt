-- ===== src/Setting/Service/Token.antt =====
-- What an update of a setting leaves, and which token the API takes after it.
use whaticket_community.Prelude.{
  ◌≡◌, ◌≢◌, ◌↔◌, ◌∙◌, ap, sym, inl, inr, refl, Bool, true, false, none, some, [], ◌∷◌, ◌++◌, arith,
  Bytes, bytes, bytes_beq, bytes_beq_iff, bytes_keyed, ◌==◌, if◌then◌else◌, is_nil, Bool-cases,
  Option-cases, subst,
}
use whaticket_community.Platform.{
  Result, ok, err, Result-cases, AppError, DbError, wrap_error, is_not_found,
}
use whaticket_community.Auth.Middleware.{is_auth_api, bearer}
use whaticket_community.Setting.Service.{
  Setting, Store, World, validate_value, is_sensitive, masked, announce, update_setting,
  find_by_value, find_api_token, key_user_api_token, no_setting, update_error,
}

some-inj : {A : Type 0} {a b : A} → some a ≡ some b → a ≡ b
some-inj h = cc

same_code : (bytes "ERR_NO_SETTING_FOUND" == bytes "ERR_NO_SETTING_FOUND") ≡ true
same_code = (bytes_beq_iff (bytes "ERR_NO_SETTING_FOUND") (bytes "ERR_NO_SETTING_FOUND")).1 refl

other_code : (bytes "ERR_FIND_SETTING_BY_VALUE" == bytes "ERR_NO_SETTING_FOUND") ≡ false
unfolding bytes_beq
other_code = refl

ok-inj : {E A : Type 0} {a b : A} → ◌≡◌ {A = Result E A} (ok a) (ok b) → a ≡ b
ok-inj h = cc

module _ {S : Type 0} (tables : Store S) (ws : Bool) where
  module _ (key v : Bytes) (w : World S) where
    pub record Written (t : S) : Type 0 where
      pub valid : validate_value key v ≡ none
      pub row : tables.value key t ≡ some v
      pub others : (j : Bytes) → key ≢ j → tables.value j t ≡ tables.value j w.store

    abbrev pub now_is : Setting
    now_is = record { key = key; value = v }

    -- Why an update is refused, and with which error.
    pub data Refusal : AppError → Type 0 where
      invalid : (e : AppError) → validate_value key v ≡ some e → Refusal e
      not_found :
          (e : DbError)
          → tables.first key w.store ≡ err e
          → Refusal (if is_not_found e then no_setting else update_error tables ws e)
      not_written :
          (e : DbError) → tables.write key v w.store ≡ err e → Refusal (update_error tables ws e)

    pub data Changed : Result AppError Setting × World S → Type 0 where
      refused : (e : AppError) → Refusal e → Changed (err e, w)
      hidden :
          (t : S)
          → is_sensitive key ≡ true
          → Written t
          → Changed (ok now_is, record w { store = t; logged = w.logged ++ masked key ∷ [] })
      shown :
          (t : S)
          → is_sensitive key ≡ false
          → Written t
          → Changed (
            ok now_is,
            record w {
              store = t;
              logged = w.logged ++ now_is ∷ [];
              frames = if ws then w.frames ++ now_is ∷ [] else w.frames;
            },
          )

    written-Changed :
        (t : S)
        → Written t
        → Changed (ok now_is, announce tables ws now_is (record w { store = t }))
    unfolding announce
    written-Changed t is = elim (Bool-cases (is_sensitive key)) [
      | inl y ↦ rw (y, announce) (hidden t y is)
      | inr n ↦ rw (n, announce) (shown t n is)
    ]

    -- `Update` changes nothing, tells nobody and answers why: the value is not one for its key, or the
    -- setting was not found, or the write failed; or the value is one that its key allows and stands in
    -- the table, every other setting is as it was, and the token of the API is neither told
    -- to the browsers nor written to the log, where another setting is both.
    pub update_setting-Changed : Changed (update_setting tables ws key v w)
    unfolding update_setting
    update_setting-Changed = elim (Option-cases (validate_value key v)) [
      | inr (e, x) ↦ rw (x, update_setting) (refused e (invalid e x))
      | inl x ↦ elim (Result-cases (tables.first key w.store)) [
        | inr (e, y) ↦ rw (x, y, update_setting) (refused _ (not_found e y))
        | inl (r, y) ↦ elim (Result-cases (tables.write r.key v w.store)) [
          | inr (e, z) ↦
              let (own, row) = tables.first_lem key w.store y in
              rw (x, y, z, update_setting)
                (refused _
                  (not_written e (ap (λ (k : Bytes). tables.write k v w.store) (sym own) ∙ z)))
          | inl (t, z) ↦
              let (own, row) = tables.first_lem key w.store y in
              let wrote : tables.write key v w.store ≡ ok t =
                ap (λ (k : Bytes). tables.write k v w.store) (sym own) ∙ z in
              let is : Written t = record {
                valid = x;
                row =
                    tables.write_lem key v w.store key wrote row
                    ∙ ground (arith, bytes_beq_iff key key);
                others = λ j n.
                    tables.write_lem key v w.store j wrote row
                    ∙ ground (arith, bytes_beq_iff key j);
              } in
              rw (x, y, z, update_setting)
                (subst
                  (λ (k : Bytes). Changed (
                    ok (record { key = k; value = v }),
                    announce tables ws (record { key = k; value = v }) (record w { store = t }),
                  ))
                  (sym own) (written-Changed t is))
        ]
      ]
    ]

  -- Which tokens are found.
  find_api_token-finds :
      (token : Bytes) (s : S) (b : Bool)
      → find_api_token tables ws token s ≡ ok b
      → (b ≡ true) ↔ ((is_nil token ≡ false) × (tables.value key_user_api_token s ≡ some token))
  unfolding find_api_token find_by_value
  find_api_token-finds [] s b h =
      let missed : ok false ≡ ok b = sym (rw (same_code, find_api_token, find_by_value) refl) ∙ h in
      (λ y. absurd (ground (arith, ok-inj missed, y)), λ y. absurd (ground (arith, y.0)))
  find_api_token-finds (c ∷ rest) s b h =
      elim (Result-cases (tables.first_value key_user_api_token (c ∷ rest) s)) [
        | inl (r, x) ↦
            let same : b ≡ true = ground (arith, x, h) in
            (λ y. (refl, tables.first_value_lem key_user_api_token (c ∷ rest) s x), λ y. same)
        | inr (e, x) ↦ elim (Bool-cases (is_not_found e)) [
          | inl y ↦
              let missed : ok false ≡ ok b =
                sym (rw (x, y, same_code, find_api_token, find_by_value) refl) ∙ h in
              (
                λ t. absurd (ground (arith, ok-inj missed, t)),
                λ t. absurd (tables.first_value_none key_user_api_token (c ∷ rest) s x y t.1),
              )
          | inr n ↦
              let failed : err (wrap_error e (bytes "ERR_FIND_SETTING_BY_VALUE") 500) ≡ ok b =
                sym (rw (x, n, other_code, find_api_token, find_by_value) refl) ∙ h in
              absurd (ground (arith, failed))
        ]
      ]

  long_enough : (v : Bytes) → validate_value key_user_api_token v ≡ none → is_nil v ≡ false
  unfolding validate_value bytes_beq
  long_enough [] h = absurd (ground (arith, h))
  long_enough (c ∷ rest) h = refl

  -- A header that passes holds the token of the API.
  passes-bearer :
      (find : Bytes → Result AppError Bool) (header : Bytes)
      → is_auth_api find header ≡ none
      → (token : Bytes) × (bearer header ≡ some token) × (find token ≡ ok true)
  unfolding is_auth_api
  passes-bearer find header h = elim (Bool-cases (is_nil header)) [
    | inl y ↦ absurd (ground (arith, y, h))
    | inr n ↦ elim (Option-cases (bearer header)) [
      | inl e ↦ absurd (ground (arith, n, e, h))
      | inr (token, e) ↦ elim (Result-cases (find token)) [
        | inr (x, f) ↦ absurd (ground (arith, n, e, f, h))
        | inl (b, f) ↦ elim (Bool-cases b) [
          | inr k ↦ absurd (ground (arith, n, e, f, k, h))
          | inl y ↦ (token, e, f ∙ ap ok y)
        ]
      ]
    ]
  ]

  module _ (v : Bytes) (w : World S) where
    -- What is known of the table after an update of the token.
    Changed-row :
        {p : Result AppError Setting × World S} {r : Setting}
        → Changed key_user_api_token v w p
        → p.0 ≡ ok r
        → (tables.value key_user_api_token p.1.store ≡ some v) × (is_nil v ≡ false)
    Changed-row (refused e r) h = absurd (ground (arith, h))
    Changed-row (hidden t s is) h = (is.row, long_enough v is.valid)
    Changed-row (shown t s is) h = (is.row, long_enough v is.valid)

    -- Once the token of the API has been set, it and no other is found, where the table can be read;
    -- and a request that passes to the routes of the API has it in its header.
    pub update_setting-serves :
        (r : Setting)
        → (update_setting tables ws key_user_api_token v w).0 ≡ ok r
        → ((token : Bytes) (b : Bool)
            → find_api_token tables ws token
                (update_setting tables ws key_user_api_token v w).1.store
              ≡ ok b
            → (b ≡ true) ↔ (token ≡ v))
          × ((header : Bytes)
              → is_auth_api
                  (λ token.
                    find_api_token tables ws token
                      (update_setting tables ws key_user_api_token v w).1.store)
                  header
                ≡ none
              → bearer header ≡ some v)
    update_setting-serves r h =
        let after = (update_setting tables ws key_user_api_token v w).1.store in
        let (row, filled) = Changed-row (update_setting-Changed key_user_api_token v w) h in
        let only : (token : Bytes) (b : Bool)
            → find_api_token tables ws token after ≡ ok b
            → (b ≡ true) ↔ (token ≡ v) =
          λ token b f.
            let finds = find_api_token-finds token after b f in
            (
              λ y. some-inj (sym (finds.0 y).1 ∙ row),
              λ e. finds.1 (ap is_nil e ∙ filled, row ∙ ap some (sym e)),
            ) in
        (
          only,
          λ header p.
              let (token, e, f) = passes-bearer (λ t. find_api_token tables ws t after) header p in
              e ∙ ap some ((only token true f).0 refl),
        )
