-- ===== src/Account/Examples.antt =====
-- Tests of src/account/issuer_helper.c.
use oidc_agent.Prelude.{◌≡◌, ◌↔◌, ◌⊎◌, true, some, [], ◌∷◌, ◌++◌}
use oidc_agent.Text.{Str, codes}
use oidc_agent.Account.Issuer.{comp_issuer_urls, comp_issuer_urls_iff}

abbrev plain_url : Str
plain_url = codes "https://op.example"

abbrev slashed : Str
slashed = codes "https://op.example/"

comp_issuer_urls_iff_example : (comp_issuer_urls (some plain_url) (some slashed) ≡ true) ↔ (
    (plain_url ≡ slashed) ⊎ (slashed ≡ plain_url ++ b'/' ∷ []) ⊎ (plain_url ≡ slashed ++ b'/' ∷ []))
comp_issuer_urls_iff_example = comp_issuer_urls_iff plain_url slashed
