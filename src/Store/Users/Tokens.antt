-- ===== src/Store/Users/Tokens.antt =====
-- internal/store/store.go: what is found in a table of tokens, and in the users, after a statement.
use uptime_monitor.Prelude.{
  some-injective, ℤ, eq_ℤ, eq_ℤ_iff, int_eq, string_eq, true, false, Bool-cases, none, some, List,
  [], ◌∷◌, String, same_text, ◌≡◌, ◌≢◌, refl, inl, inr, sym, ap, subst, ◌∙◌, arith,
}
use uptime_monitor.Time.{Time}
use uptime_monitor.Store.{User, TokenRow}
use uptime_monitor.Store.Users.{
  find_token, find_email, has_token, delete_token, delete_of_user, set_hash,
}

pub find_token-delete_token :
    (t : String) (now : Time) (rs : List TokenRow) → find_token t now (delete_token t rs) ≡ none
unfolding find_token delete_token
find_token-delete_token t now [] = refl
find_token-delete_token t now (r ∷ rs) = elim (Bool-cases (same_text r.token t)) [
  | inl h ↦ rw h (find_token-delete_token t now rs)
  | inr h ↦ rw h (rw h (find_token-delete_token t now rs))
]

r_is_other :
    (r : TokenRow) (t u : String)
    → same_text r.token t ≡ true
    → same_text u t ≡ false
    → same_text r.token u ≡ false
r_is_other r t u g h = elim (Bool-cases (same_text r.token u)) [
  | inl k ↦
      absurd
        (ground (arith, subst (λ x. same_text x t ≡ true) ((string_eq.beq_iff r.token u).0 k) g, h))
  | inr k ↦ k
]

-- Another token stays as it was.
pub find_token-delete_token_other :
    (t u : String) (now : Time) (rs : List TokenRow)
    → same_text u t ≡ false
    → find_token u now (delete_token t rs) ≡ find_token u now rs
unfolding find_token delete_token
find_token-delete_token_other t u now [] h = refl
find_token-delete_token_other t u now (r ∷ rs) h =
    let rest = find_token-delete_token_other t u now rs h in
    elim (Bool-cases (same_text r.token t)) [
      | inl g ↦ rw g (rw (r_is_other r t u g h) rest)
      | inr g ↦ rw g (rw rest refl)
    ]

kept_other :
    (id : ℤ) (t : String) (now : Time) (r : TokenRow) (rs : List TokenRow)
    → eq_ℤ r.user_id id ≡ false
    → find_token t now rs ≢ some id
    → find_token t now (r ∷ rs) ≢ some id
unfolding find_token
kept_other id t now r rs h rest found = ground (arith, eq_ℤ_iff r.user_id id)

pub find_token-delete_of_user :
    (id : ℤ) (t : String) (now : Time) (rs : List TokenRow)
    → find_token t now (delete_of_user id rs) ≢ some id
unfolding find_token delete_of_user
find_token-delete_of_user id t now [] = λ found. absurd (ground (arith, found))
find_token-delete_of_user id t now (r ∷ rs) =
    let rest = find_token-delete_of_user id t now rs in
    elim (Bool-cases (eq_ℤ r.user_id id)) [
      | inl h ↦ rw h rest
      | inr h ↦ rw h (kept_other id t now r (delete_of_user id rs) h rest)
    ]

pub find_email-set_hash :
    (email : String) (id : ℤ) (hash : String) (us : List User) (u : User)
    → find_email email us ≡ some u
    → u.id ≡ id
    → find_email email (set_hash id hash us) ≡ some (record u { password_hash = hash })
unfolding find_email set_hash
find_email-set_hash email id hash [] u found same = absurd (ground (arith, found))
find_email-set_hash email id hash (v ∷ us) u found same =
    elim (Bool-cases (same_text v.email email)) [
      | inl g ↦
          let e : v ≡ u = some-injective v u (sym (rw g refl) ∙ found) in
          let k : eq_ℤ v.id id ≡ true = (eq_ℤ_iff v.id id).1 (ap (λ x. x.id) e ∙ same) in
          rw k (rw g (ap {A = User} (λ x. some (record x { password_hash = hash })) e))
      | inr g ↦ elim (Bool-cases (eq_ℤ v.id id)) [
        | inl k ↦
            rw k (rw g (find_email-set_hash email id hash us u (sym (rw g refl) ∙ found) same))
        | inr k ↦
            rw k (rw g (find_email-set_hash email id hash us u (sym (rw g refl) ∙ found) same))
      ]
    ]

-- A token that is in no row is not found.
pub find_token-has_token :
    (t : String) (now : Time) (rs : List TokenRow)
    → has_token t rs ≡ false
    → find_token t now rs ≡ none
unfolding find_token has_token
find_token-has_token t now [] h = refl
find_token-has_token t now (r ∷ rs) h = elim (Bool-cases (same_text r.token t)) [
  | inl g ↦ absurd (ground (arith, g, h))
  | inr g ↦ rw g (find_token-has_token t now rs (sym (rw g refl) ∙ h))
]
