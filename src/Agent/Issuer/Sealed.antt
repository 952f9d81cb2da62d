-- ===== src/Agent/Issuer/Sealed.antt =====
-- The requests for a token of an issuer and the secrets in memory.
use oidc_agent.Prelude.{
  ℕ, ◌<◌, ◌≡◌, refl, inl, inr, Bool, true, false, not, ◌&&◌, ◌||◌, Option, none, some, List, [],
  ◌∷◌, All, Bool-cases,
}
use oidc_agent.Text.{Str}
use oidc_agent.Crypt.Memory.{Base64}
use oidc_agent.Accounts.{Accounts, all_matching, db_find_accounts_by_issuer_url}
use oidc_agent.Accounts.Sealed.{AllSealed-SealedBut}
use oidc_agent.Agent.{
  Agent, World, Arguments, OidcError, success, euserpwcncl, is_success, with_accounts, fail,
}
use oidc_agent.Agent.Load.{get_decrypted, get_access_token_using_refresh_flow}
use oidc_agent.Agent.Load.Sealed.{Got, get_decrypted-Got, autoload-Inv, get_access_token-keeps}
use oidc_agent.Agent.Sealed.{
  Inv, Working, Working-update, Working-fail, Inv-send, Inv-fail, Inv-write_oidc_errno,
  Inv-write_error_with_help, Inv-reencrypt,
}
use oidc_agent.Agent.Token.{period}
use oidc_agent.Agent.Token.Sealed.{answer_token-Inv, idtoken_confirmed-Inv, request-Inv}
use oidc_agent.Agent.Issuer.{
  last_of, after_autoload_issuer, load_for_issuer, none_for_issuer, decrypt_at, default_or_last,
  issuer_confirmed, choose_for_issuer, get_loaded_unencrypted_account_for_issuer,
  oidcd_handle_token_issuer, oidcd_handle_id_token_issuer,
}

-- What holds of all pointers of a list holds of those that match.
all_matching-All : (P : ℕ → Type 0) (t : ℕ → Bool) (l : List ℕ) → All P l → All P (all_matching t l)
unfolding all_matching
all_matching-All P t [] h = tt
all_matching-All P t (p ∷ l) h = elim (Bool-cases (t p)) [
  | inl e ↦ rw e (h.0, all_matching-All P t l h.1)
  | inr e ↦ rw e (all_matching-All P t l h.1)
]

-- The pointers that a search gives.
abbrev AllFound : (ℕ → Type 0) → Option (List ℕ) → Type 0
AllFound P none = Unit
AllFound P (some l) = All P l

not_empty-AllFound :
    (P : ℕ → Type 0) (l : List ℕ)
    → All P l
    → AllFound P (elim l [ [] ↦ none | x ∷ xs ↦ some (x ∷ xs) ])
not_empty-AllFound P [] h = tt
not_empty-AllFound P (x ∷ l) h = h

by_issuer-AllFound :
    (P : ℕ → Type 0) (s : Accounts) (issuer : Option Str)
    → All P s.loaded
    → AllFound P (db_find_accounts_by_issuer_url s issuer).1
unfolding db_find_accounts_by_issuer_url
by_issuer-AllFound P s none h = tt
by_issuer-AllFound P s (some url) h = not_empty-AllFound P _ (all_matching-All P _ s.loaded h)

last_of-All : (P : ℕ → Type 0) (q : ℕ) (ps : List ℕ) → P q → All P ps → P (last_of q ps)
last_of-All P q [] h k = h
last_of-All P q (r ∷ ps) h k = last_of-All P r ps k.0 k.1

module _ (b : Base64) (key : ℕ) (w : World) (args : Arguments) where
  -- The search by issuer leaves the state as it is, but for the match function, which it puts back.
  searched-Inv :
      (g : Agent) (issuer : Option Str)
      → Inv b key g
      → Inv b key (with_accounts g (db_find_accounts_by_issuer_url g.accounts issuer).0)
  unfolding with_accounts db_find_accounts_by_issuer_url
  searched-Inv g none h = record { sealed = h.sealed; bounded = h.bounded }
  searched-Inv g (some url) h = record { sealed = h.sealed; bounded = h.bounded }

  decrypt_at-Working :
      (g : Agent) (p : ℕ)
      → p < g.fresh
      → Inv b key g
      → Working b key p (decrypt_at b key w args g p)
  unfolding decrypt_at
  decrypt_at-Working g p lt h = Working-update b key g _ (record {
    but = AllSealed-SealedBut b key g.accounts p h.sealed;
    bounded = h.bounded;
    allocated = lt;
  })

  after_autoload_issuer-Got :
      (r : Agent × OidcError) (default : Option Str)
      → Inv b key r.0
      → Got b key w (after_autoload_issuer b key w args r default)
  unfolding after_autoload_issuer
  after_autoload_issuer-Got (g, success) default h = get_decrypted-Got b key w g default h
  after_autoload_issuer-Got (g, euserpwcncl) default h = Inv-send b key g _ h
  after_autoload_issuer-Got (g, _) default h = Inv-write_error_with_help b key w g h

  load_for_issuer-Got :
      (g : Agent) (default issuer scope hint : Option Str)
      → Inv b key g
      → Got b key w (load_for_issuer b key w args g default issuer scope hint)
  unfolding load_for_issuer
  load_for_issuer-Got g none issuer scope hint h = elim (Bool-cases w.autogen) [
    | inl a ↦ simp (a, load_for_issuer) (Inv-send b key g _ h)
    | inr a ↦
        simp (a, load_for_issuer)
          (after_autoload_issuer-Got _ none (autoload-Inv b key w g none issuer hint h))
  ]
  load_for_issuer-Got g (some name) issuer scope hint h =
      after_autoload_issuer-Got _ (some name) (autoload-Inv b key w g (some name) issuer hint h)

  none_for_issuer-Got :
      (g : Agent) (issuer scope hint : Option Str)
      → Inv b key g
      → Got b key w (none_for_issuer b key w args g issuer scope hint)
  unfolding none_for_issuer
  none_for_issuer-Got g issuer scope hint h = elim (Bool-cases args.no_autoload) [
    | inl a ↦ rw (a, none_for_issuer) (Inv-send b key g _ h)
    | inr a ↦
        rw (a, none_for_issuer) (load_for_issuer-Got _ _ issuer scope hint (Inv-fail b key g _ h))
  ]

  issuer_confirmed-Got :
      (g : Agent) (p : ℕ) (issuer hint : Option Str)
      → Working b key p g
      → Got b key w (issuer_confirmed b key w args g p issuer hint)
  unfolding issuer_confirmed
  issuer_confirmed-Got g p issuer hint h =
      elim (Bool-cases (
        (args.confirm || (g.accounts.heap p).confirmation_required)
        && not (is_success (w.get_confirmation false (g.accounts.heap p).shortname issuer hint)))) [
          | inl r ↦
              rw (r, issuer_confirmed)
                (Inv-write_oidc_errno b key _ (Inv-reencrypt b key _ (Working-fail b key g _ h)))
          | inr r ↦ rw (r, issuer_confirmed) h
        ]

  default_or_last-Working :
      (r : Agent × Option ℕ) (last : ℕ)
      → Got b key w r
      → last < r.0.fresh
      → let chosen = default_or_last b key w args r last in Working b key chosen.1 chosen.0
  unfolding default_or_last
  default_or_last-Working (g, some p) last h lt = h
  default_or_last-Working (g, none) last h lt = decrypt_at-Working g last lt h

  get_decrypted-fresh :
      (g : Agent) (name : Option Str) → (get_decrypted b key w g name).0.fresh ≡ g.fresh
  unfolding get_decrypted with_accounts
  get_decrypted-fresh g name = refl

  choose_for_issuer-Got :
      (g : Agent) (found : Option (List ℕ)) (issuer scope hint : Option Str)
      → AllFound (λ p. p < g.fresh) found
      → Inv b key g
      → Got b key w (choose_for_issuer b key w args g found issuer scope hint)
  unfolding choose_for_issuer get_decrypted with_accounts fail
  choose_for_issuer-Got g none issuer scope hint k h = none_for_issuer-Got g issuer scope hint h
  choose_for_issuer-Got g (some []) issuer scope hint k h = h
  choose_for_issuer-Got g (some (p ∷ [])) issuer scope hint k h =
      issuer_confirmed-Got _ p issuer hint (decrypt_at-Working g p k.0 h)
  choose_for_issuer-Got g (some (p ∷ q ∷ ps)) issuer scope hint k h =
      let got =
        get_decrypted-Got b key w _ (w.query_default_account_issuer issuer).1
          (Inv-fail b key g (w.query_default_account_issuer issuer).0 h) in
      issuer_confirmed-Got _ _ issuer hint (
        default_or_last-Working _ (last_of q ps) got
          (last_of-All (λ r. r < g.fresh) q ps k.1.0 k.1.1))

  -- If every loaded account is allocated and encrypted, the choice of an account for an issuer keeps it
  -- so when no account results; when one does, that one is allocated and every other loaded one is
  -- still encrypted.
  pub get_loaded_unencrypted_account_for_issuer-Got :
      (g : Agent) (issuer scope hint : Option Str)
      → Inv b key g
      → Got b key w (get_loaded_unencrypted_account_for_issuer b key w args g issuer scope hint)
  unfolding get_loaded_unencrypted_account_for_issuer with_accounts
  get_loaded_unencrypted_account_for_issuer-Got g issuer scope hint h =
      choose_for_issuer-Got _ _ issuer scope hint
        (by_issuer-AllFound (λ p. p < g.fresh) g.accounts issuer h.bounded)
        (searched-Inv g issuer h)

  pub oidcd_handle_token_issuer-Inv :
      (g : Agent) (issuer min_valid scope hint audience : Option Str)
      → Inv b key g
      → Inv b key (oidcd_handle_token_issuer b key w args g issuer min_valid scope hint audience)
  unfolding oidcd_handle_token_issuer
  oidcd_handle_token_issuer-Inv g issuer min_valid scope hint audience h =
      request-Inv b key w args
        (get_loaded_unencrypted_account_for_issuer b key w args g issuer scope hint) _
        (get_loaded_unencrypted_account_for_issuer-Got g issuer scope hint h)
        (λ g1 p k.
          answer_token-Inv b key w args
            (get_access_token_using_refresh_flow w g1 p (period min_valid) scope audience) p
            (get_access_token-keeps (Working b key p) w p (Working-update b key)
              (Working-fail b key) g1 (period min_valid) scope audience k))

  pub oidcd_handle_id_token_issuer-Inv :
      (g : Agent) (issuer scope hint : Option Str)
      → is_success (w.get_confirmation true none issuer hint) ≡ true
      → Inv b key g
      → Inv b key (oidcd_handle_id_token_issuer b key w args g issuer scope hint)
  unfolding oidcd_handle_id_token_issuer
  oidcd_handle_id_token_issuer-Inv g issuer scope hint ok h =
      request-Inv b key w args
        (get_loaded_unencrypted_account_for_issuer b key w args g issuer scope hint) _
        (get_loaded_unencrypted_account_for_issuer-Got g issuer scope hint h)
        (λ g1 p k. idtoken_confirmed-Inv b key w args g1 p none issuer scope hint ok k)
