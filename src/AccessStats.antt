-- ===== src/AccessStats.antt =====
-- The monthly statistics of the accesses: run_retention of config-api/app/metadata_watcher.py over
-- the tables access_log and access_stats_monthly (config-api/app/models). The year and the month of
-- a time are the database's, and a parameter.
pub mod Conserved
mod Tests
use pa_sso_proxy.Prelude.{
  ℕ, ◌+◌, ◌-◌, ◌*◌, ◌≡◌, ◌↔◌, refl, Bool, true, false, not, ◌&&◌, Option, none, some, List, [], ◌∷◌,
  ◌++◌, String, str_eq, eq_iff, ltb, ◌==◌, ==_iff, if◌then◌else◌, filter, arith,
}

-- What the rows are grouped by.
pub record Group : Type 0 where
  pub year : ℕ
  pub month : ℕ
  pub idp_entity_id : Option String
  pub provider_type : String
  pub user_type : Option String
  pub client_id : Option String

-- The id is left out, and `result`, `error_code` and the hash are what is not aggregated.
pub record AccessLog : Type 0 where
  pub timestamp : ℕ
  pub provider_type : String
  pub client_id : Option String
  pub result : String
  pub error_code : Option String
  pub user_type : Option String
  pub idp_entity_id : Option String
  pub fiscal_number_hash : Option String

pub record AccessStatsMonthly : Type 0 where
  pub group : Group
  pub count : ℕ

pub record Tables : Type 0 where
  pub access_log : List AccessLog
  pub access_stats_monthly : List AccessStatsMonthly

unfoldable pub text_or_null_eq : Option String → Option String → Bool
text_or_null_eq none none = true
text_or_null_eq (some s) (some t) = str_eq s t
text_or_null_eq a b = false

-- Equality in GROUP BY, where NULL is one value.
unfoldable pub group_eq : Group → Group → Bool
unfolding text_or_null_eq
group_eq g h =
    g.year == h.year
    && (g.month == h.month
        && (text_or_null_eq g.idp_entity_id h.idp_entity_id
            && (str_eq g.provider_type h.provider_type
                && (text_or_null_eq g.user_type h.user_type
                    && text_or_null_eq g.client_id h.client_id))))

unfoldable pub is_not_null : Option String → Bool
is_not_null none = false
is_not_null (some s) = true

-- A conflict with uq_access_stats_monthly: a unique constraint takes NULL for different from NULL.
unfoldable pub conflicts : Group → Group → Bool
unfolding group_eq is_not_null
conflicts g h =
    group_eq g h
    && (is_not_null g.idp_entity_id && (is_not_null g.user_type && is_not_null g.client_id))

unfoldable pub group_of : (ℕ → ℕ × ℕ) → AccessLog → Group
group_of month_of row = record {
  year = (month_of row.timestamp).0;
  month = (month_of row.timestamp).1;
  idp_entity_id = row.idp_entity_id;
  provider_type = row.provider_type;
  user_type = row.user_type;
  client_id = row.client_id;
}

unfoldable pub add_to_group : Group → List AccessStatsMonthly → List AccessStatsMonthly
unfolding group_eq
add_to_group g [] = record { group = g; count = 1 } ∷ []
add_to_group g (row ∷ rows) =
    let rest = add_to_group g rows in
    if group_eq row.group g then record row { count = row.count + 1 } ∷ rows else row ∷ rest

-- GROUP BY with count(*)
unfoldable pub aggregate : (ℕ → ℕ × ℕ) → List AccessLog → List AccessStatsMonthly
unfolding add_to_group group_of
aggregate month_of [] = []
aggregate month_of (row ∷ rows) = add_to_group (group_of month_of row) (aggregate month_of rows)

-- INSERT … ON CONFLICT DO UPDATE SET count = count + the new one
unfoldable pub insert_or_add :
    AccessStatsMonthly → List AccessStatsMonthly → List AccessStatsMonthly
unfolding conflicts
insert_or_add new [] = new ∷ []
insert_or_add new (row ∷ rows) =
    let rest = insert_or_add new rows in
    if conflicts row.group new.group
    then record row { count = row.count + new.count } ∷ rows
    else row ∷ rest

unfoldable pub insert_all :
    List AccessStatsMonthly → List AccessStatsMonthly → List AccessStatsMonthly
unfolding insert_or_add
insert_all [] stats = stats
insert_all (new ∷ news) stats = insert_all news (insert_or_add new stats)

unfoldable pub is_old : ℕ → AccessLog → Bool
is_old cutoff row = ltb row.timestamp cutoff

-- `if agg_rows:` and the delete; the transaction is committed as a whole.
unfoldable pub purged : ℕ → Tables → List AccessStatsMonthly → Tables
unfolding insert_all is_old
purged cutoff t [] = t
purged cutoff t (g ∷ gs) = record {
  access_log = filter (λ row. not (is_old cutoff row)) t.access_log;
  access_stats_monthly = insert_all (g ∷ gs) t.access_stats_monthly;
}

abbrev pub microseconds_per_day : ℕ
microseconds_per_day = 86400000000

unfoldable pub run_retention : (ℕ → ℕ × ℕ) → ℕ → ℕ → Tables → Tables
unfolding purged aggregate is_old
run_retention month_of months now t =
    let cutoff = now - months * 30 * microseconds_per_day in
    purged cutoff t (aggregate month_of (filter (is_old cutoff) t.access_log))
