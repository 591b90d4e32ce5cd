-- ===== src/Certs/Tests.antt =====
-- A certificate deleted before a version that it signed is exposed (config-api/app/routes).
use pa_sso_proxy.Prelude.{◌≡◌, refl, find, true, false, some, arith, Increasing}
use pa_sso_proxy.Metadata.{saved}
use pa_sso_proxy.Metadata.Handlers.{metadata_expose}
use pa_sso_proxy.Metadata.Tests.{
  admin, all_work, pinned, version_one, cert_one, admin_in, pinned_one,
}
use pa_sso_proxy.Certs.{has_cert_id, certs_delete}
use pa_sso_proxy.Certs.Active.{id_of}
use pa_sso_proxy.Certs.Forgotten.{warning_forgotten}

certs-Increasing : Increasing id_of pinned.certs
certs-Increasing = omega arith

first_cert : find (has_cert_id 1) pinned.certs ≡ some cert_one
unfolding has_cert_id
first_cert = refl

warning_forgotten_example :
    ((metadata_expose all_work admin 1 pinned).response ≡ saved true)
    × ((metadata_expose all_work admin 1 (certs_delete admin 1 pinned).store).response
        ≡ saved false)
warning_forgotten_example =
    warning_forgotten all_work admin 1 1 pinned version_one cert_one admin_in certs-Increasing
      pinned_one first_cert refl refl
