-- ===== src/Agent/Exchange/Aside.antt =====
-- A request that works on an account that is allocated and not loaded.
use oidc_agent.Prelude.{
  ℕ, ◌<◌, ◌≡◌, ◌≢◌, refl, sym, subst, inl, inr, Bool, true, false, Option, none, some, List, [],
  ◌∷◌, ◌==◌, ==_iff, All, All-imp, Bool-cases,
}
use oidc_agent.Text.{Str}
use oidc_agent.Crypt.Memory.{Base64}
use oidc_agent.Account.{Account}
use oidc_agent.Accounts.{Accounts, store}
use oidc_agent.Accounts.Sealed.{AllSealed, IsSealed, AllSealed-SealedBut}
use oidc_agent.Agent.{
  Agent, OidcError, CodeExchangeEntry, DeviceCodeEntry, Message, send, fail, update,
}
use oidc_agent.Agent.Add.{note_null}
use oidc_agent.Agent.Sealed.{Inv, Working, Inv-fail}
use oidc_agent.Agent.Exchange.{free_code, free_device, send_config, checked_from_gen}

module _ (b : Base64) (key : ℕ) where
  -- A request works on an account at `p` that is allocated but not loaded.
  pub record Aside (p : ℕ) (g : Agent) : Type 0 where
    pub inv : Inv b key g
    pub absent : All (λ q. q ≢ p) g.accounts.loaded
    pub allocated : p < g.fresh

  -- An entry for an account that is not loaded, or for none.
  abbrev pub IsAside : Agent → Option ℕ → Type 0
  IsAside g none = Unit
  IsAside g (some p) = All (λ q. q ≢ p) g.accounts.loaded × (p < g.fresh)

  -- Every account that waits for the user is allocated and not loaded.
  pub record AllAside (g : Agent) : Type 0 where
    pub codes : All (λ (e : CodeExchangeEntry). IsAside g e.account) g.codes
    pub devices : All (λ (e : DeviceCodeEntry). IsAside g e.account) g.devices

  pub Inv-same :
      (g h : Agent) → h.accounts ≡ g.accounts → h.fresh ≡ g.fresh → Inv b key g → Inv b key h
  Inv-same g h e f k = record {
    sealed = subst (λ s. AllSealed b key s) (sym e) k.sealed;
    bounded = simp (e, f) k.bounded;
  }

  pub Aside-same :
      {p : ℕ} (g h : Agent) → h.accounts ≡ g.accounts → h.fresh ≡ g.fresh → Aside p g → Aside p h
  Aside-same {p} g h e f k = record {
    inv = Inv-same g h e f k.inv;
    absent = subst (λ (s : Accounts). All (λ q. q ≢ p) s.loaded) (sym e) k.absent;
    allocated = subst (λ n. p < n) (sym f) k.allocated;
  }

  pub Aside-update : {p : ℕ} (g : Agent) (a : Account) → Aside p g → Aside p (update g p a)
  unfolding update store
  Aside-update {p} g a k = record {
    inv = record { sealed = go g.accounts.loaded k.absent k.inv.sealed; bounded = k.inv.bounded };
    absent = k.absent;
    allocated = k.allocated;
  }
    where
      go :
          (l : List ℕ)
          → All (λ q. q ≢ p) l
          → All (λ q. IsSealed b key (g.accounts.heap q)) l
          → All (λ q. IsSealed b key ((store g.accounts p a).heap q)) l
      go [] h j = tt
      go (q ∷ l) h j = (
        elim (Bool-cases (q == p)) [
          | inl e ↦ absurd (h.0 ((==_iff q p).0 e))
          | inr e ↦ rw (e, store) j.0
        ],
        go l h.1 j.1,
      )

  pub Aside-Working : {p : ℕ} (g : Agent) → Aside p g → Working b key p g
  Aside-Working {p} g k = record {
    but = AllSealed-SealedBut b key g.accounts p k.inv.sealed;
    bounded = k.inv.bounded;
    allocated = k.allocated;
  }

  pub send-Aside : {p : ℕ} (g : Agent) (m : Message) → Aside p g → Aside p (send g m)
  unfolding send
  send-Aside g m k = Aside-same g _ refl refl k

  pub send_config-Aside :
      {p : ℕ} (g : Agent) (q : ℕ) (to : Bool) → Aside p g → Aside p (send_config g q to)
  unfolding send_config
  send_config-Aside g q true k = send-Aside _ _ (send-Aside g _ k)
  send_config-Aside g q false k = send-Aside g _ k

  pub fail-Aside : {p : ℕ} (g : Agent) (e : OidcError) → Aside p g → Aside p (fail g e)
  unfolding fail
  fail-Aside g e k = Aside-same g _ refl refl k

  pub note_null-Aside : {p : ℕ} (g : Agent) (t : Option Str) → Aside p g → Aside p (note_null g t)
  unfolding note_null
  note_null-Aside g none k = fail-Aside g _ k
  note_null-Aside g (some t) k = k

  pub note_null-Inv : (g : Agent) (t : Option Str) → Inv b key g → Inv b key (note_null g t)
  unfolding note_null
  note_null-Inv g none k = Inv-fail b key g _ k
  note_null-Inv g (some t) k = k

  pub free_code-Inv :
      (g : Agent) (cee : CodeExchangeEntry) → Inv b key g → Inv b key (free_code g cee)
  unfolding free_code
  free_code-Inv g cee k = Inv-same g _ refl refl k

  pub free_device-Inv :
      (g : Agent) (dce : DeviceCodeEntry) → Inv b key g → Inv b key (free_device g dce)
  unfolding free_device
  free_device-Inv g dce k = Inv-same g _ refl refl k

  pub checked-Aside :
      {p : ℕ} (g : Agent) (state : Option Str) (from_gen : Bool)
      → Aside p g
      → Aside p (checked_from_gen b key g p state from_gen)
  unfolding checked_from_gen
  checked-Aside g state false k = k
  checked-Aside g none true k = Aside-update g _ k
  checked-Aside g (some s) true k = Aside-update _ _ (send-Aside g _ k)

  -- The state that is noted in an account is no secret.
  pub noted-Inv :
      (g : Agent) (p : ℕ) (state : Option Str)
      → Inv b key g
      → Inv b key (update g p (record (g.accounts.heap p) { used_state = state }))
  unfolding update store
  noted-Inv g p state k = record {
    sealed = All-imp g.accounts.loaded at k.sealed;
    bounded = k.bounded;
  }
    where
      at :
          (q : ℕ)
          → IsSealed b key (g.accounts.heap q)
          → IsSealed b key
              ((store g.accounts p (record (g.accounts.heap p) { used_state = state })).heap q)
      at q j = elim (Bool-cases (q == p)) [
        | inl e ↦
            let here = subst (λ r. IsSealed b key (g.accounts.heap r)) ((==_iff q p).0 e) j in
            simp (e, store) (record { refresh = here.refresh; id = here.id; secret = here.secret })
        | inr e ↦ rw (e, store) j
      ]

  pub note_null-AllAside : (g : Agent) (t : Option Str) → AllAside g → AllAside (note_null g t)
  unfolding note_null fail
  note_null-AllAside g none h = record { codes = h.codes; devices = h.devices }
  note_null-AllAside g (some t) h = h
