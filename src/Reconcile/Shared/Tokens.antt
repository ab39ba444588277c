-- ===== src/Reconcile/Shared/Tokens.antt =====
-- src/reconcilers.rs, `get_namespace_client`: whose token a client carries.
use scaleway_operator.Prelude.{
  List, Option-cases, String, [], and_then, ap, arith, format, inl, inr, lookup, some, ℕ, ◌∙◌, ◌∷◌,
  ◌≡◌,
}
use scaleway_operator.Reconcile.Shared.{get_namespace_client}
use scaleway_operator.Resources.Secrets.{Secret}
use scaleway_operator.Runtime.Calls.{get_secret}
use scaleway_operator.Runtime.Exec.{ok, ◌>>=◌}
use scaleway_operator.Runtime.Http.{good}
use scaleway_operator.Runtime.World.{Event, Outside, ScalewayClient, World}

abbrev with_token : String → String → ScalewayClient
with_token token base_url = record { token = token; base_url = base_url }

token_of :
    (token base_url : String) (c : ScalewayClient)
    → ok (with_token token base_url) ≡ ok c
    → token ≡ c.token
token_of token base_url c h = cc

module _ (out : Outside) (namespace : String) where
  -- The token that the Secret of the namespace's credentials held when it was read.
  abbrev pub IsNamespaceToken : String → Type 0
  IsNamespaceToken token =
      (log : List Event) × (secret : Secret) × (bytes : List ℕ) × (out.secret log "scaleway-system"
          (format ("scaleway-ns-creds-" ∷ namespace ∷ []))
        ≡ good secret)
      × (and_then (lookup "secret_key") secret.contents ≡ some bytes)
      × (out.from_utf8 bytes ≡ some token)

  secret_at :
      (w : World) (c : ScalewayClient)
      → (get_namespace_client out namespace w).0 ≡ ok c
      → (secret : Secret) × (out.secret w.log "scaleway-system"
            (format ("scaleway-ns-creds-" ∷ namespace ∷ []))
          ≡ good secret)
  unfolding get_namespace_client ◌>>=◌ get_secret
  secret_at w c h = ground arith

  token_at :
      (w : World) (c : ScalewayClient)
      → (get_namespace_client out namespace w).0 ≡ ok c
      → (secret : Secret) × (bytes : List ℕ) × (out.secret w.log "scaleway-system"
            (format ("scaleway-ns-creds-" ∷ namespace ∷ []))
          ≡ good secret)
        × (and_then (lookup "secret_key") secret.contents ≡ some bytes)
        × (out.from_utf8 bytes ≡ some c.token)
  unfolding get_namespace_client ◌>>=◌ get_secret
  token_at w c h =
      let (secret, read) = secret_at w c h in
      elim (Option-cases (and_then (lookup "secret_key") secret.contents)) [
        | inl q ↦ absurd (cc (rw (read, q) at h))
        | inr (bytes, q) ↦ elim (Option-cases (out.from_utf8 bytes)) [
          | inl d ↦ absurd (cc (rw (read, q, d) at h))
          | inr (token, d) ↦
              let same = rw (read, q, d) at h in
              (secret, bytes, read, q, d ∙ ap some (token_of token w.scaleway_base_url c same))
        ]
      ]

  pub get_namespace_client-ok :
      (w : World) (c : ScalewayClient)
      → (get_namespace_client out namespace w).0 ≡ ok c
      → IsNamespaceToken c.token
  get_namespace_client-ok w c h =
      let (secret, bytes, read, value, decoded) = token_at w c h in
      (w.log, secret, bytes, read, value, decoded)
