-- ===== src/Uri/Host.antt =====
-- The label of a host that names an account.
use oidc_agent.Prelude.{
  ℕ, ◌≡◌, refl, ◌∙◌, true, false, none, some, [], ◌∷◌, ◌++◌, ◌==◌, All-append, arith,
}
use oidc_agent.Text.{Str, codes}
use oidc_agent.Text.Edit.{is_prefix, strstarts}
use oidc_agent.Text.Edit.Laws.{is_prefix-append}
use oidc_agent.Crypt.Answer.{ok, undefined, ◌>>=◌, deref}
use oidc_agent.Uri.{is_char, cut_last, behind, last_label, get_top_host}
use oidc_agent.Uri.Search.{Lacks}
use oidc_agent.Uri.Query.{cut_first-append}

-- Two texts with a character between them.
Lacks-joined :
    (c : ℕ) (a : Str) (d : ℕ) (b : Str)
    → Lacks c a
    → is_char c d ≡ false
    → Lacks c b
    → Lacks c (a ++ d ∷ b)
Lacks-joined c a d b h e k = All-append (λ x. is_char c x ≡ false) a (d ∷ b) h (e, k)

cut_last-Lacks : (c : ℕ) (s : Str) → Lacks c s → cut_last c s ≡ none
unfolding cut_last
cut_last-Lacks c [] h = refl
cut_last-Lacks c (x ∷ s) h = rw (h.0, cut_last-Lacks c s h.1) refl

cut_last-append : (c : ℕ) (a b : Str) → Lacks c b → cut_last c (a ++ c ∷ b) ≡ some (a, b)
unfolding cut_last
cut_last-append c [] b h =
    let same : (c == c) ≡ true = ground arith in rw (same, cut_last-Lacks c b h) refl
cut_last-append c (x ∷ a) b h = rw (cut_last-append c a b h) refl

-- The text behind a scheme without a colon.
behind-here : (rest : Str) → behind (codes "://") (codes "://" ++ rest) ≡ some rest
unfolding behind
behind-here rest = rw (is_prefix-append (codes "://") rest) refl

behind-later :
    (x : ℕ) (h : Str) → (x == b':') ≡ false → behind (codes "://") (x ∷ h) ≡ behind (codes "://") h
unfolding behind strstarts
behind-later x h e =
    let other : is_prefix (codes "://") (x ∷ h) ≡ false = differs x h e in rw other refl
  where
    differs : (y : ℕ) (t : Str) → (y == b':') ≡ false → is_prefix (codes "://") (y ∷ t) ≡ false
    differs y t n = ground arith

behind-scheme :
    (scheme rest : Str)
    → Lacks b':' scheme
    → behind (codes "://") (scheme ++ (codes "://" ++ rest)) ≡ some rest
behind-scheme [] rest h = behind-here rest
behind-scheme (x ∷ scheme) rest h =
    behind-later x (scheme ++ (codes "://" ++ rest)) h.0 ∙ behind-scheme scheme rest h.1

-- A url with a scheme, a host and a path.
abbrev pub url_of : Str → Str → Str → Str
url_of scheme host path = scheme ++ (codes "://" ++ (host ++ b'/' ∷ path))

get_top_host-labels :
    (scheme host path : Str)
    → Lacks b':' scheme
    → Lacks b'/' host
    → get_top_host (some (url_of scheme host path)) ≡ (
        deref (cut_last b'.' host)
        >>= (λ labels. ok (last_label labels.0 (cut_last b'.' labels.0))))
unfolding get_top_host
get_top_host-labels scheme host path h k =
    rw (behind-scheme scheme (host ++ b'/' ∷ path) h, cut_first-append b'/' host path k) refl

-- The last label but one of a host is its name: for a url with a scheme without a colon, a host and a
-- slash behind it, getTopHost gives the label in front of the last dot of the host, with or without
-- labels before it; for a host without a dot it has no result, since it writes through NULL.
pub get_top_host_lem :
    (scheme sub name top path : Str)
    → Lacks b':' scheme
    → Lacks b'/' sub × Lacks b'/' name × Lacks b'/' top
    → Lacks b'.' name × Lacks b'.' top
    → (get_top_host (some (url_of scheme (name ++ b'.' ∷ top) path)) ≡ ok name)
      × (get_top_host (some (url_of scheme ((sub ++ b'.' ∷ name) ++ b'.' ∷ top) path)) ≡ ok name)
      × (get_top_host (some (url_of scheme name path)) ≡ undefined)
unfolding last_label
get_top_host_lem scheme sub name top path h (s, n, t) (n', t') = (
  get_top_host-labels scheme (name ++ b'.' ∷ top) path h (Lacks-joined b'/' name b'.' top n refl t)
      ∙ rw (cut_last-append b'.' name top t', cut_last-Lacks b'.' name n') refl,
  get_top_host-labels scheme ((sub ++ b'.' ∷ name) ++ b'.' ∷ top) path h (
        Lacks-joined b'/' (sub ++ b'.' ∷ name) b'.' top (Lacks-joined b'/' sub b'.' name s refl n)
          refl t)
      ∙ rw (cut_last-append b'.' (sub ++ b'.' ∷ name) top t', cut_last-append b'.' sub name n')
          refl,
  get_top_host-labels scheme name path h n ∙ rw (cut_last-Lacks b'.' name n') refl,
)
