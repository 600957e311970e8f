-- ===== src/WebAuth/Login.antt =====
-- Only who has told the key is let in.
use perfect_miner.Prelude.{
  ℕ, ◌+◌, ◌<◌, ◌≡◌, ◌⊎◌, ◌↔◌, refl, sym, ap, ◌∙◌, true, false, Bool-cases, inl, inr, List, [], ◌∷◌,
  ◌++◌, ◌==◌, arith, count, count-append, bit,
}
use perfect_miner.Prelude.Text.{Text, text_eq_sound, text_eq_refl}
use perfect_miner.Json.{Value, string}
use perfect_miner.WebAuth.{
  WebAuth, Event, connect_web_socket_no_login, web_login, is_empty, is_text, accepts, on_login,
  handle, new_web_auth, key_of,
}

one_more : (id j : ℕ) (xs : List ℕ) → count id (xs ++ j ∷ []) ≡ count id xs + bit (id == j)
one_more id j xs = omega (arith, count-append id xs (j ∷ []))

module _ {F : Type 0} where
  abbrev pub handle_all : List (Event F) → WebAuth → WebAuth
  handle_all [] a = a
  handle_all (e ∷ es) a = handle_all es (handle e a)

  -- What opens the door: the key itself, or anything where there is none.
  abbrev pub Opens : Text → Value F → Type 0
  Opens key value = (key ≡ []) ⊎ (value ≡ string key)

  abbrev pub Told : ℕ → Text → List (Event F) → Type 0
  Told id key [] = ⊥
  Told id key (connect_web_socket_no_login j ∷ es) = Told id key es
  Told id key (web_login j value ∷ es) = ((j ≡ id) × Opens key value) ⊎ Told id key es

  accepts-Opens : (key : Text) (value : Value F) → (accepts key value ≡ true) ↔ Opens key value
  unfolding accepts is_empty is_text
  accepts-Opens [] value = (λ _. inl refl, λ _. refl)
  accepts-Opens (c ∷ t) (string s) = (
    λ h. inr (ap string (sym (text_eq_sound (c ∷ t) s h))),
    λ o. elim o [
      | inl e ↦ absurd (cc)
      | inr e ↦ let same : s ≡ c ∷ t = cc in rw same (text_eq_refl (c ∷ t))
    ],
  )
  accepts-Opens (c ∷ t) v = (λ h. absurd (cc), λ o. elim o [ inl e ↦ cc | inr e ↦ cc ])

  abbrev Known : ℕ → Text → WebAuth → List (Event F) → Type 0
  Known id key a es = (0 < count id a.sockets) ⊎ Told id key es

  let_in :
      (j : ℕ) (v : Value F) (a : WebAuth)
      → accepts a.auth_key v ≡ true
      → ((on_login j v a).auth_key ≡ a.auth_key) × ((on_login j v a).sockets ≡ a.sockets ++ j ∷ [])
  unfolding on_login
  let_in j v a h = rw h (refl, refl)

  kept_out :
      (j : ℕ) (v : Value F) (a : WebAuth)
      → accepts a.auth_key v ≡ false
      → ((on_login j v a).auth_key ≡ a.auth_key) × ((on_login j v a).sockets ≡ a.sockets)
  unfolding on_login
  kept_out j v a h = rw h (refl, refl)

  step :
      (id j : ℕ) (v : Value F) (es : List (Event F)) (a : WebAuth)
      → Known id (on_login j v a).auth_key (on_login j v a) es
        ↔ Known id a.auth_key a (web_login j v ∷ es)
  step id j v es a = elim (Bool-cases (accepts a.auth_key v)) [
    | inl y ↦
        let (k, s) = let_in j v a y in
        let open_door = (accepts-Opens a.auth_key v).0 y in
        rw k (
          rw s (
            λ h. elim h [
              | inl c ↦ elim (Bool-cases (id == j)) [
                | inl same ↦ inr (inl (ground arith, open_door))
                | inr other ↦ inl (ground (arith, one_more id j a.sockets))
              ]
              | inr t ↦ inr (inr t)
            ],
            λ h. elim h [
              | inl c ↦ inl (omega (arith, one_more id j a.sockets, c))
              | inr t ↦ elim t [
                | inl (same, _) ↦ inl (ground (arith, one_more id j a.sockets, same))
                | inr more ↦ inr more
              ]
            ],
          ))
    | inr n ↦
        let (k, s) = kept_out j v a n in
        rw k (
          rw s (
            λ h. elim h [ inl c ↦ inl c | inr t ↦ inr (inr t) ],
            λ h. elim h [
              | inl c ↦ inl c
              | inr t ↦ elim t [
                | inl (_, o) ↦
                    let wrong : false ≡ true = sym n ∙ (accepts-Opens a.auth_key v).1 o in
                    absurd (cc)
                | inr more ↦ inr more
              ]
            ],
          ))
  ]

  known :
      (id : ℕ) (es : List (Event F)) (a : WebAuth)
      → (0 < count id (handle_all es a).sockets) ↔ Known id a.auth_key a es
  unfolding handle
  known id [] a = (λ h. inl h, λ o. elim o [ inl h ↦ h | inr t ↦ absurd t ])
  known id (connect_web_socket_no_login j ∷ es) a =
      let e : Event F = connect_web_socket_no_login j in known id es (handle e a)
  known id (web_login j v ∷ es) a =
      let later = known id es (on_login j v a) in
      let now = step id j v es a in (λ h. now.0 (later.0 h), λ h. later.1 (now.1 h))

  -- Whatever sockets connect and tell, a socket is made known to the program exactly when it has
  -- told the auth key, as a string, or has told anything where the key is empty.
  pub handle_all-Told :
      (to_string : Value F → Text) (auth_key : Value F) (process_id : Text) (id : ℕ)
      (events : List (Event F))
      → (0 < count id (handle_all events (new_web_auth to_string auth_key process_id)).sockets)
        ↔ Told id (key_of to_string auth_key) events
  unfolding new_web_auth
  handle_all-Told to_string auth_key process_id id events =
      let known_lem = known id events (new_web_auth to_string auth_key process_id) in
      (
        λ h. elim (known_lem.0 h) [ inl z ↦ absurd (omega (arith, z)) | inr t ↦ t ],
        λ t. known_lem.1 (inr t),
      )
