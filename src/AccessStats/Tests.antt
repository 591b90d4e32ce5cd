-- ===== src/AccessStats/Tests.antt =====
-- A run of run_retention of config-api/app/metadata_watcher.py on two accesses, of which one is old.
use pa_sso_proxy.Prelude.{ℕ, ◌-◌, ◌*◌, ◌≡◌, refl, not, none, some, [], ◌∷◌, length, filter}
use pa_sso_proxy.AccessStats.{
  Group, AccessLog, Tables, microseconds_per_day, is_old, run_retention, purged, aggregate,
  insert_all, insert_or_add, add_to_group,
}
use pa_sso_proxy.AccessStats.Conserved.{accesses, run_retention-accesses}

abbrev month_of : ℕ → ℕ × ℕ
month_of t = (2026, 1)

abbrev access_at : ℕ → AccessLog
access_at t = record {
  timestamp = t;
  provider_type = "cie";
  client_id = some "client";
  result = "success";
  error_code = none;
  user_type = none;
  idp_entity_id = none;
  fiscal_number_hash = none;
}

abbrev now : ℕ
now = 100 * microseconds_per_day

abbrev tables : Tables
tables = record {
  access_log = access_at (10 * microseconds_per_day) ∷ access_at (90 * microseconds_per_day) ∷ [];
  access_stats_monthly = [];
}

abbrev january : Group
january = record {
  year = 2026;
  month = 1;
  idp_entity_id = none;
  provider_type = "cie";
  user_type = none;
  client_id = some "client";
}

one_is_left : length (run_retention month_of 1 now tables).access_log ≡ 1
unfolding run_retention purged aggregate insert_all insert_or_add add_to_group is_old
one_is_left = refl

run_retention-accesses_example :
    (accesses month_of january (run_retention month_of 1 now tables)
      ≡ accesses month_of january tables)
    × ((run_retention month_of 1 now tables).access_log
        ≡ filter (λ row. not (is_old (now - 1 * 30 * microseconds_per_day) row)) tables.access_log)
run_retention-accesses_example = run_retention-accesses month_of 1 now tables january
