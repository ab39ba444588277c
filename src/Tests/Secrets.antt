-- ===== src/Tests/Secrets.antt =====
-- The theorems on the life of a secret, in a cluster and with a Scaleway that answer.
use scaleway_operator.Prelude.{List, String, [], none, refl, some, true, ◌∷◌, ◌≡◌}
use scaleway_operator.Reconcile.Secrets.Rounds.{Readable}
use scaleway_operator.Reconcile.Secrets.Rounds.Creation.{Stores}
use scaleway_operator.Reconcile.Secrets.Rounds.Sync.{Versioned}
use scaleway_operator.Reconcile.Secrets.Source.{
  is_cr_allowed_for_secret, is_opt_in_granted, parse_k8s_secret_source, present,
}
use scaleway_operator.Reconcile.Shared.{await_change, secret_finalizer}
use scaleway_operator.Resources.{secret_kind}
use scaleway_operator.Resources.Secrets.{ScalewaySecret, ScalewaySecretStatus}
use scaleway_operator.Runtime.Exec.{ok}
use scaleway_operator.Runtime.World.{Event, World, patched_finalizers}
use scaleway_operator.Scaleway.Answers.Secrets.{creation, pushing, removal, search_by_tags}
use scaleway_operator.Scaleway.Tags.{check_tags, find_reserved_tag}
use scaleway_operator.Scaleway.Validation.{validate_region}
use scaleway_operator.Startup.{a_secret, control}
use scaleway_operator.Startup.Secrets.{current, doomed, requests_of, rounds}
use scaleway_operator.Startup.Secrets.Converges.{secret_converges, secret_lifecycle}
use scaleway_operator.Startup.Secrets.Rotation.{secret_rotates}
use scaleway_operator.Tests.{
  api_up, calm, creds_secret, metadata, scaleway, secret_cr, synced_secret,
}
use scaleway_operator.Tests.Lifecycle.{answered, granted}

abbrev new_secret : ScalewaySecret
new_secret =
    let c = secret_cr none in
    let m = metadata none in record c { metadata = record m { finalizers = some ("other" ∷ []) } }

source_parsed :
    parse_k8s_secret_source creds_secret "src" "password" "team" "web" ≡ ok (present "7" (2 ∷ []))
unfolding parse_k8s_secret_source is_opt_in_granted is_cr_allowed_for_secret
source_parsed = refl

abbrev from_source : Readable api_up (some (record { name = "src"; key = "password" })) "team" "web"
from_source = record {
  ks_ref = record { name = "src"; key = "password" };
  configured = refl;
  ks = creds_secret;
  read = λ log. refl;
  resource_version = "7";
  payload = 2 ∷ [];
  parsed = source_parsed;
}

abbrev unversioned : Versioned api_up "team" "web"
unversioned = record {
  version = λ log. some "7";
  live = λ log. refl;
  role_reads = λ log ns. refl;
  secret_reads = λ log ns s. refl;
}

in_paris : validate_region "fr-par" ≡ ok tt
unfolding validate_region
in_paris = refl

untagged : check_tags [] ≡ ok tt
unfolding check_tags find_reserved_tag
untagged = refl

abbrev stored :
    Stores api_up (new_secret.spec) "team" "web" "p" "t" "https://api.scaleway.com" (2 ∷ [])
stored = record {
  id = "x";
  search_status = 200;
  search_body = "x";
  searches = answered _;
  unknown = refl;
  creation_status = 200;
  creation_body = "x";
  creates = answered _;
  named = refl;
  version_status = 200;
  version_body = "x";
  pushes = answered _;
  revision = 1;
  numbered = refl;
}

abbrev pushed_status : String → ScalewaySecretStatus
pushed_status id = record {
  scaleway_id = some id;
  current_version = some 1;
  last_synced_resource_version = some "7";
  observed_generation = some 1;
  sync_state = "Synced";
  error_message = none;
}

secret_converges_example :
    let w' = rounds api_up new_secret 3 calm in
    ((current api_up new_secret w'.log).status ≡ some (pushed_status "x"))
    × ((current api_up new_secret w'.log).metadata.finalizers
        ≡ some ("other" ∷ secret_finalizer ∷ []))
    × (requests_of w'.log
        ≡ pushing api_up scaleway "fr-par" "x" (2 ∷ [])
          ∷ creation api_up scaleway new_secret.spec "p" "team" "web"
          ∷ search_by_tags api_up scaleway "fr-par" "p" "team" "web"
          ∷ [])
secret_converges_example =
    secret_converges api_up new_secret unversioned from_source granted refl in_paris untagged
      "https://api.scaleway.com" calm 0 refl refl refl refl refl stored 1

secret_lifecycle_example :
    (w1 : World) × (control api_up
        (a_secret (doomed api_up new_secret 7 (rounds api_up new_secret 3 calm).log))
        (rounds api_up new_secret 3 calm)
      ≡ (await_change, w1))
    × ((earlier : List Event) × (w1.log
          ≡ patched_finalizers secret_kind "team" "web" ("other" ∷ []) true ∷ earlier)
        × (requests_of earlier
            ≡ removal api_up scaleway "fr-par" "x"
              ∷ pushing api_up scaleway "fr-par" "x" (2 ∷ [])
              ∷ creation api_up scaleway new_secret.spec "p" "team" "web"
              ∷ search_by_tags api_up scaleway "fr-par" "p" "team" "web"
              ∷ []))
secret_lifecycle_example =
    secret_lifecycle api_up new_secret unversioned from_source granted refl in_paris untagged
      "https://api.scaleway.com" calm 0 refl refl refl refl refl stored 1 7 (answered _)

secret_rotates_example :
    let w' = rounds api_up synced_secret 2 calm in
    ((current api_up synced_secret w'.log).status ≡ some (pushed_status "s-1"))
    × ((current api_up synced_secret w'.log).metadata.finalizers
        ≡ synced_secret.metadata.finalizers)
    × (requests_of w'.log ≡ pushing api_up scaleway "fr-par" "s-1" (2 ∷ []) ∷ [])
secret_rotates_example =
    secret_rotates api_up synced_secret unversioned from_source granted refl in_paris untagged
      "https://api.scaleway.com" calm 0 refl refl _ refl refl _ refl "s-1" refl 1 (answered _) refl
      refl 1
