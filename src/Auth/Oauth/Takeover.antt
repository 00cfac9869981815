-- ===== src/Auth/Oauth/Takeover.antt =====
-- Whose account a sign-in by a provider gives.
use fann_api.Prelude.{
  ◌≡◌, ◌≢◌, refl, ◌∙◌, inl, inr, ◌⊎◌, true, false, none, some, [], ◌∷◌, Env, Error, Result, ok, err,
  conflict, is_some, arith, Option-cases, Bool-cases, Result-cases, Action, pure, modify, ◌>>◌,
  >>=-ok, >>=-err, ap,
}
use fann_api.Subscriptions.Access.{UserRole, admin}
use fann_api.Users.{User, create, find_by_oauth, find_by_email}
use fann_api.Users.Updates.{link_oauth_account, mark_email_verified}
use fann_api.Consent.{ConsentContext, terms, privacy}
use fann_api.Auth.{State, on_db, write_db, open_account}
use fann_api.Auth.Oauth.{
  OauthData, self_service_role, new_oauth_user, link_existing, sign_up, find_or_create_oauth_user,
}
use fann_api.Users.Insertion.{create-eq-new}

module _ (env : Env) (dto : OauthData) (context : ConsentContext) (s : State) where
  abbrev m : Action State User
  m = on_db (create env (new_oauth_user dto))

  abbrev k : User → Action State User
  k u =
      write_db (link_oauth_account u.id dto.provider dto.provider_uid)
      >> modify (open_account env u.id (terms ∷ privacy ∷ []) context dto.email)
      >> write_db (mark_email_verified env u.id)
      >> pure u

  -- the part after the registration, which does not fail
  result :
      (r : Result User)
      → (create env (new_oauth_user dto) s.db).0 ≡ r
      → (sign_up env dto context s).0 ≡ r
  unfolding sign_up
  result (ok u) e = ap (λ p. p.0) (>>=-ok m k s (λ i. (e i, (m s).1)))
  result (err x) e = ap (λ p. p.0) (>>=-err m k s (λ i. (e i, (m s).1)))

  sign_up-result : (sign_up env dto context s).0 ≡ (create env (new_oauth_user dto) s.db).0
  sign_up-result = result (create env (new_oauth_user dto) s.db).0 refl

  self_service_role-ne-admin : (r : UserRole) → self_service_role r ≢ admin
  self_service_role-ne-admin r e = ground arith

  -- A sign-in by a provider gives an account that is linked to that identity, and writes nothing; or
  -- one with the provider's address, which was verified, and writes nothing but the link; or refuses
  -- an account with that address that is not verified, and writes nothing; or, where no account has
  -- the address, refuses, or gives a new account, which is no admin and has no password.
  pub find_or_create_oauth_user_lem :
      let (r, s') = find_or_create_oauth_user env dto context s in
      ((u : User) × (find_by_oauth dto.provider dto.provider_uid s.db ≡ some u)
        × (r ≡ ok u)
        × (s' ≡ s))
      ⊎ ((find_by_oauth dto.provider dto.provider_uid s.db ≡ none)
          × (((u : User) × (find_by_email dto.email s.db ≡ some u)
                × (((is_some u.email_verified_at ≡ true)
                      × (r ≡ ok u)
                      × (s' ≡ record s {
                        db = link_oauth_account u.id dto.provider dto.provider_uid s.db;
                      }))
                    ⊎ ((is_some u.email_verified_at ≡ false) × (r ≡ err conflict) × (s' ≡ s))))
              ⊎ ((find_by_email dto.email s.db ≡ none)
                  × (((e : Error) × (r ≡ err e))
                      ⊎ ((u : User) × (r ≡ ok u) × (u.role ≢ admin) × (u.password_hash ≡ none))))))
  unfolding find_or_create_oauth_user link_existing
  find_or_create_oauth_user_lem =
      elim (Option-cases (find_by_oauth dto.provider dto.provider_uid s.db)) [
        | inr (u, found) ↦ rw (find_or_create_oauth_user, found) (inl (u, refl, refl, refl))
        | inl unlinked ↦ elim (Option-cases (find_by_email dto.email s.db)) [
          | inr (u, found) ↦ elim (Bool-cases (is_some u.email_verified_at)) [
            | inl v ↦
                rw (find_or_create_oauth_user, unlinked, found, v)
                  (inr (refl, inl (u, refl, inl (v, refl, refl))))
            | inr v ↦
                rw (find_or_create_oauth_user, unlinked, found, v)
                  (inr (refl, inl (u, refl, inr (v, refl, refl))))
          ]
          | inl missing ↦ elim (Result-cases (create env (new_oauth_user dto) s.db).0) [
            | inr (x, e) ↦
                rw (find_or_create_oauth_user, unlinked, missing)
                  (inr (refl, inr (refl, inl (x, sign_up-result ∙ e))))
            | inl (u, e) ↦
                let new = create-eq-new env (new_oauth_user dto) s.db u e in
                rw (find_or_create_oauth_user, unlinked, missing)
                  (inr (
                    refl,
                    inr (
                      refl,
                      inr (
                        u,
                        sign_up-result ∙ e,
                        rw new (self_service_role-ne-admin dto.role),
                        rw new refl,
                      ),
                    ),
                  ))
          ]
        ]
      ]
