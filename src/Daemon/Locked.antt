-- ===== src/Daemon/Locked.antt =====
-- What a locked daemon does.
use oidc_agent.Prelude.{
  ℕ, suc, ◌+◌, ◌≡◌, refl, ◌∙◌, inl, inr, true, false, some, List, [], ◌∷◌, ◌++◌, Bool-cases, All,
  length, arith,
}
use oidc_agent.Text.{codes}
use oidc_agent.Crypt.Memory.{Base64}
use oidc_agent.Agent.{World, Arguments, Message, OidcError, response_badrequest, response_success}
use oidc_agent.Lock.{PasswordCrypt}
use oidc_agent.Daemon.{Query, Daemon, is_request, refuse, answer, is_null_text, turn, turns}

-- The daemon after `n` requests of which each got one answer and changed nothing else that is stored.
pub record Untouched (n : ℕ) (d h : Daemon) : Type 0 where
  pub accounts : h.agent.accounts ≡ d.agent.accounts
  pub codes : h.agent.codes ≡ d.agent.codes
  pub devices : h.agent.devices ≡ d.agent.devices
  pub files : h.files ≡ d.files
  pub locked : h.locked ≡ d.locked
  pub hash : h.hash ≡ d.hash
  pub fail_count : h.fail_count ≡ d.fail_count
  pub answers : length h.agent.sent ≡ length d.agent.sent + n

length-send : (l : List Message) (m : Message) → length (l ++ m ∷ []) ≡ length l + 1
length-send [] m = refl
length-send (x ∷ l) m = ground (arith, length-send l m)

answer-Untouched : (d : Daemon) (m : Message) → Untouched 1 d (answer d m)
unfolding answer
answer-Untouched d m = record {
  accounts = refl;
  codes = refl;
  devices = refl;
  files = refl;
  locked = refl;
  hash = refl;
  fail_count = refl;
  answers = length-send d.agent.sent m;
}

refuse-Untouched : (d : Daemon) (e : OidcError) → Untouched 1 d (refuse d e)
unfolding refuse
refuse-Untouched d e = record {
  accounts = refl;
  codes = refl;
  devices = refl;
  files = refl;
  locked = refl;
  hash = refl;
  fail_count = refl;
  answers = length-send d.agent.sent _;
}

module _ (b : Base64) (key : ℕ) (c : PasswordCrypt) (r : ℕ → ℕ → ℕ) (args : Arguments) where
  -- One turn leaves the daemon with an answer more.
  turn-Untouched :
      (w : World) (d : Daemon) (q : Query)
      → d.locked ≡ true
      → is_request q (codes "unlock") ≡ false
      → (h : Daemon) × (turn b key c r args w d q ≡ some h) × Untouched 1 d h
  unfolding turn
  turn-Untouched w d q l u = elim (Bool-cases (is_null_text b key c r args w q.request)) [
    | inl e ↦ (
      answer d (response_badrequest (codes "No request type.")),
      simp (e, turn) refl,
      answer-Untouched d _,
    )
    | inr e ↦ elim (Bool-cases (is_request q (codes "check"))) [
      | inl f ↦ (answer d response_success, simp (e, f, turn) refl, answer-Untouched d _)
      | inr f ↦ (refuse d OidcError.elocked, simp (e, f, l, u, turn) refl, refuse-Untouched d _)
    ]
  ]

  Untouched-step :
      (n : ℕ) (d h k : Daemon) → Untouched 1 d h → Untouched n h k → Untouched (suc n) d k
  Untouched-step n d h k x y = record {
    accounts = y.accounts ∙ x.accounts;
    codes = y.codes ∙ x.codes;
    devices = y.devices ∙ x.devices;
    files = y.files ∙ x.files;
    locked = y.locked ∙ x.locked;
    hash = y.hash ∙ x.hash;
    fail_count = y.fail_count ∙ x.fail_count;
    answers = omega (arith, x.answers, y.answers);
  }

  -- While the agent is locked, a run of any requests but for the one to unlock it has a result, gets one
  -- answer for each request, and leaves the accounts, loaded or waiting, the files and the lock as they
  -- are.
  pub turns-locked :
      (d : Daemon) (l : List (World × Query))
      → d.locked ≡ true
      → All (λ (r : World × Query). is_request r.1 (codes "unlock") ≡ false) l
      → (h : Daemon) × (turns b key c r args d l ≡ some h) × Untouched (length l) d h
  unfolding turns
  turns-locked d [] e u = (
    d,
    refl,
    record {
      accounts = refl;
      codes = refl;
      devices = refl;
      files = refl;
      locked = refl;
      hash = refl;
      fail_count = refl;
      answers = omega arith;
    },
  )
  turns-locked d ((w, q) ∷ l) e u =
      let (h, t, x) = turn-Untouched w d q e u.0 in
      let (k, s, y) = turns-locked h l (x.locked ∙ e) u.1 in
      (k, simp (t, turns) s, Untouched-step (length l) d h k x y)
