-- ===== src/Crypt/Answer.antt =====
-- What a function of src/utils/crypt gives: a text or NULL with oidc_errno set. Where the code reads
-- through NULL or outside of an array there is no result, `undefined`.
use oidc_agent.Prelude.{◌≡◌, refl, Option, none, some}

pub data CryptError : Type 0 where
  arg_null out_of_memory wrong_password decrypt_failed malformed malformed_ipc : CryptError
  -- NULL with oidc_errno as it was
  unset : CryptError
  -- oidc_setInternalError
  internal : CryptError

pub data Answer {ℓ} (A : Type ℓ) : Type ℓ where
  ok : A → Answer A
  err : CryptError → Answer A
  undefined : Answer A

infixl 5 ◌>>=◌
abbrev pub ◌>>=◌ {ℓ κ} : {A : Type ℓ} {B : Type κ} → Answer A → (A → Answer B) → Answer B
ok a >>= f = f a
err e >>= f = err e
undefined >>= f = undefined

-- A pointer that is read without a test.
abbrev pub deref {ℓ} : {A : Type ℓ} → Option A → Answer A
deref none = undefined
deref (some a) = ok a

-- A pointer that is tested, with the error of the branch for NULL.
abbrev pub non_null {ℓ} : {A : Type ℓ} → CryptError → Option A → Answer A
non_null e none = err e
non_null e (some a) = ok a

-- A chain that gives a result gives one at its first step, and at the rest.
pub >>=-result {ℓ κ} :
    {A : Type ℓ} {C : Type κ} {c : C} (x : Answer A) (k : A → Answer C)
    → (x >>= k) ≡ ok c
    → (v : A) × (x ≡ ok v) × (k v ≡ ok c)
>>=-result undefined k e = cc
>>=-result (err _) k e = cc
>>=-result (ok v) k e = (v, refl, e)

pub ok_injective {ℓ} : {A : Type ℓ} {a b : A} → ok a ≡ ok b → a ≡ b
ok_injective e = cc
