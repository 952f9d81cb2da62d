-- ===== src/Agent/Manage/Sealed.antt =====
-- Removals and the secrets in memory.
use oidc_agent.Prelude.{ℕ, ◌<◌, inl, inr, Option, none, some, Option-cases, All-remove_first}
use oidc_agent.Text.{Str}
use oidc_agent.Account.{Account}
use oidc_agent.Crypt.Memory.{Base64}
use oidc_agent.Accounts.{account_db_find_value, account_db_remove_if_found}
use oidc_agent.Accounts.Sealed.{remove_if_found-AllSealed}
use oidc_agent.Agent.{Agent, World, OidcError, success, with_accounts}
use oidc_agent.Agent.Sealed.{Inv, Inv-send, Inv-fail, Inv-write_oidc_errno}
use oidc_agent.Agent.Manage.{
  key_of, oidcd_handle_rm, oidcd_handle_remove_all, oidcd_handle_delete, revoked, configured,
  delete_parsed,
}

module _ (b : Base64) (key : ℕ) where
  remove_if_found-Inv :
      (g : Agent) (a : Account)
      → Inv b key g
      → Inv b key (with_accounts g (account_db_remove_if_found g.accounts a))
  unfolding with_accounts account_db_remove_if_found
  remove_if_found-Inv g a h = record {
    sealed = remove_if_found-AllSealed b key g.accounts a h.sealed;
    bounded = All-remove_first (λ q. q < g.fresh) _ g.accounts.loaded h.bounded;
  }

  pub oidcd_handle_rm-Inv :
      (g : Agent) (n : Option Str) → Inv b key g → Inv b key (oidcd_handle_rm g n)
  unfolding oidcd_handle_rm
  oidcd_handle_rm-Inv g none h = Inv-send b key g _ h
  oidcd_handle_rm-Inv g (some n) h =
      elim (Option-cases (account_db_find_value g.accounts (key_of n))) [
        | inl e ↦ rw (e, oidcd_handle_rm) (Inv-send b key g _ h)
        | inr (p, e) ↦
            rw (e, oidcd_handle_rm) (Inv-send b key _ _ (remove_if_found-Inv g (key_of n) h))
      ]

  pub remove_all-Inv : (g : Agent) → Inv b key g → Inv b key (oidcd_handle_remove_all g)
  unfolding oidcd_handle_remove_all
  remove_all-Inv g h = Inv-send b key _ _ (record { sealed = tt; bounded = tt })

  revoked-Inv :
      (w : World) (g : Agent) (a : Account) (e : OidcError)
      → Inv b key g
      → Inv b key (revoked w g a e)
  unfolding revoked
  revoked-Inv w g a success h = Inv-send b key _ _ (remove_if_found-Inv _ a (Inv-send b key g _ h))
  revoked-Inv w g a e h = Inv-send b key _ _ (Inv-fail b key g e h)

  configured-Inv :
      (w : World) (g : Agent) (r : Account × OidcError) → Inv b key g → Inv b key (configured w g r)
  unfolding configured
  configured-Inv w g (a, success) h = revoked-Inv w g a (w.revoke_token a) h
  configured-Inv w g (a, e) h = Inv-write_oidc_errno b key _ (Inv-fail b key g e h)

  delete_parsed-Inv :
      (w : World) (g : Agent) (r : OidcError × Option Account)
      → Inv b key g
      → Inv b key (delete_parsed w g r)
  unfolding delete_parsed
  delete_parsed-Inv w g (e, none) h = Inv-write_oidc_errno b key _ (Inv-fail b key g e h)
  delete_parsed-Inv w g (e, some a) h = configured-Inv w g _ h

  pub delete-Inv :
      (w : World) (g : Agent) (json : Option Str)
      → Inv b key g
      → Inv b key (oidcd_handle_delete w g json)
  unfolding oidcd_handle_delete
  delete-Inv w g json h = delete_parsed-Inv w g (w.get_account_from_json json) h
