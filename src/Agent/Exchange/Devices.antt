-- ===== src/Agent/Exchange/Devices.antt =====
-- The look up of a device code, and the secrets in memory.
use oidc_agent.Prelude.{
  ℕ, ◌≡◌, refl, inl, inr, Bool, true, false, not, ◌&&◌, Option, none, some, if◌then◌else◌,
  All-find_first, Bool-cases,
}
use oidc_agent.Text.{Str, str_valid}
use oidc_agent.Crypt.Memory.{Base64}
use oidc_agent.Account.{account_refresh_token_is_valid}
use oidc_agent.Agent.{Agent, World, OidcError, success, DeviceCodeEntry, fail}
use oidc_agent.Agent.Add.{is_set}
use oidc_agent.Agent.Load.{is_null}
use oidc_agent.Agent.Sealed.{Inv, Inv-fail, Inv-write_oidc_errno, Inv-reencrypt}
use oidc_agent.Agent.Exchange.{
  free_device, spend_device, get_access_token_using_device_flow, is_pending, device_done,
  device_result, look_up, device_configured, device_at, device_entry, device_parsed,
  oidcd_handle_device_lookup,
}
use oidc_agent.Agent.Exchange.Aside.{
  Aside, IsAside, AllAside, Inv-same, Aside-update, Aside-Working, send-Aside, send_config-Aside,
  fail-Aside, note_null-Aside, free_device-Inv,
}

module _ (b : Base64) (key : ℕ) where
  device_done-Inv :
      (g : Agent) (p : ℕ) (dce : DeviceCodeEntry) (only_at : Bool)
      → Aside b key p g
      → Inv b key (device_done b key g p dce only_at)
  unfolding device_done spend_device
  device_done-Inv g p dce only_at k =
      elim (Bool-cases (account_refresh_token_is_valid (g.accounts.heap p) && not only_at)) [
        | inl e ↦
            simp (e, device_done)
              (Inv-same b key _ _ refl refl (
                Inv-reencrypt b key _ (Aside-Working b key _ (send_config-Aside b key g p true k))))
        | inr e ↦ elim (Bool-cases (only_at && str_valid (g.accounts.heap p).access_token)) [
          | inl f ↦
              simp (e, f, device_done) (free_device-Inv b key _ dce (send-Aside b key g _ k).inv)
          | inr f ↦
              simp (e, f, device_done) (free_device-Inv b key _ dce (send-Aside b key g _ k).inv)
        ]
      ]

  device_failed-Inv :
      (g : Agent) (dce : DeviceCodeEntry) (pending : Bool)
      → Inv b key g
      → Inv b key (if pending then g else free_device g dce)
  device_failed-Inv g dce true k = k
  device_failed-Inv g dce false k = free_device-Inv b key g dce k

  device_result-Inv :
      (w : World) (r : Agent × OidcError) (p : ℕ) (dce : DeviceCodeEntry) (only_at_str : Option Str)
      → Aside b key p r.0
      → Inv b key (device_result b key w r p dce only_at_str)
  unfolding device_result
  device_result-Inv w (g, success) p dce only_at_str k =
      device_done-Inv _ p dce (is_set only_at_str) (note_null-Aside b key g only_at_str k)
  device_result-Inv w (g, e) p dce only_at_str k =
      Inv-write_oidc_errno b key _ (device_failed-Inv g dce (is_pending b key w e) k.inv)

  look_up-Aside :
      (w : World) (g : Agent) (p : ℕ) (device_code : Option Str)
      → Aside b key p g
      → Aside b key p (look_up b key w g p device_code).0
  unfolding look_up get_access_token_using_device_flow
  look_up-Aside w g p device_code k = elim (Bool-cases (is_null (g.accounts.heap p).mytoken_url)) [
    | inl e ↦ simp (e, look_up) (fail-Aside b key _ _ (Aside-update b key g _ k))
    | inr e ↦ simp (e, look_up) (fail-Aside b key _ _ (Aside-update b key g _ k))
  ]

  device_configured-Inv :
      (w : World) (g : Agent) (p : ℕ) (e : OidcError) (dce : DeviceCodeEntry)
      (device_code only_at_str : Option Str)
      → Aside b key p g
      → Inv b key (device_configured b key w g p e dce device_code only_at_str)
  unfolding device_configured
  device_configured-Inv w g p success dce device_code only_at_str k =
      device_result-Inv w _ p dce only_at_str (look_up-Aside w g p device_code k)
  device_configured-Inv w g p _ dce device_code only_at_str k =
      free_device-Inv b key _ dce (Inv-write_oidc_errno b key g k.inv)

  device_at-Inv :
      (w : World) (g : Agent) (dce : DeviceCodeEntry) (at : Option ℕ)
      (device_code only_at_str : Option Str)
      → IsAside b key g at
      → Inv b key g
      → Inv b key (device_at b key w g dce at device_code only_at_str)
  unfolding device_at
  device_at-Inv w g dce none device_code only_at_str h k =
      free_device-Inv b key _ dce (Inv-write_oidc_errno b key _ (Inv-fail b key g _ k))
  device_at-Inv w g dce (some p) device_code only_at_str h k =
      device_configured-Inv w _ p _ dce device_code only_at_str (
        fail-Aside b key _ _
          (Aside-update b key g _ (record { inv = k; absent = h.0; allocated = h.1 })))

  device_entry-Inv :
      (w : World) (g : Agent) (found : Option DeviceCodeEntry)
      (device_code only_at_str : Option Str)
      → ((dce : DeviceCodeEntry) → found ≡ some dce → IsAside b key g dce.account)
      → Inv b key g
      → Inv b key (device_entry b key w g found device_code only_at_str)
  unfolding device_entry
  device_entry-Inv w g none device_code only_at_str f k =
      Inv-write_oidc_errno b key _ (Inv-fail b key g _ k)
  device_entry-Inv w g (some dce) device_code only_at_str f k =
      device_at-Inv w g dce dce.account device_code only_at_str (f dce refl) k

  device_parsed-Inv :
      (w : World) (g : Agent) (r : OidcError × Option (Option Str)) (only_at_str : Option Str)
      → AllAside b key g
      → Inv b key g
      → Inv b key (device_parsed b key w g r only_at_str)
  unfolding device_parsed fail
  device_parsed-Inv w g (e, none) only_at_str h k =
      Inv-write_oidc_errno b key _ (Inv-fail b key g e k)
  device_parsed-Inv w g (e, some device_code) only_at_str h k =
      device_entry-Inv w _ _ device_code only_at_str
        (λ dce f. All-find_first _ _ g.devices dce h.devices f) (Inv-fail b key g e k)

  -- If every loaded account is allocated and has its secrets encrypted, and the accounts that wait for
  -- the user are allocated and not loaded, then every loaded account is allocated and encrypted after
  -- the look up of a device code, whatever comes of it.
  pub oidcd_handle_device_lookup-Inv :
      (w : World) (g : Agent) (device_json only_at_str : Option Str)
      → AllAside b key g
      → Inv b key g
      → Inv b key (oidcd_handle_device_lookup b key w g device_json only_at_str)
  unfolding oidcd_handle_device_lookup
  oidcd_handle_device_lookup-Inv w g device_json only_at_str h k =
      device_parsed-Inv w g (w.get_device_code_from_json device_json) only_at_str h k
