-- ===== src/AccessStats/Conserved.antt =====
-- What run_retention of config-api/app/metadata_watcher.py keeps.
use pa_sso_proxy.Prelude.{
  ℕ, ◌+◌, ◌-◌, ◌*◌, ◌≡◌, ◌≢◌, ◌↔◌, refl, sym, ap, ◌∙◌, inl, inr, Bool, true, not, Option, none,
  some, List, [], ◌∷◌, String, eq_iff, ==_iff, if◌then◌else◌, filter, count, arith, Bool-cases,
}
use pa_sso_proxy.AccessStats.{
  Group, AccessLog, AccessStatsMonthly, Tables, text_or_null_eq, group_eq, conflicts, group_of,
  add_to_group, aggregate, insert_or_add, insert_all, is_old, purged, microseconds_per_day,
  run_retention,
}

text_or_null_eq_iff : (a b : Option String) → (text_or_null_eq a b ≡ true) ↔ (a ≡ b)
unfolding text_or_null_eq
text_or_null_eq_iff none none = (λ h. refl, λ h. refl)
text_or_null_eq_iff none (some t) = (λ h. ground arith, λ h. ground arith)
text_or_null_eq_iff (some s) none = (λ h. ground arith, λ h. ground arith)
text_or_null_eq_iff (some s) (some t) =
    (λ h. ground (arith, eq_iff s t), λ h. ground (arith, eq_iff s t))

group_eq-path : (g h : Group) → group_eq g h ≡ true → g ≡ h
unfolding group_eq
group_eq-path g h e = ground (
  arith,
  ==_iff g.year h.year,
  ==_iff g.month h.month,
  text_or_null_eq_iff g.idp_entity_id h.idp_entity_id,
  eq_iff g.provider_type h.provider_type,
  text_or_null_eq_iff g.user_type h.user_type,
  text_or_null_eq_iff g.client_id h.client_id,
)

-- The accesses that the statistics have for a group.
unfoldable pub counted : Group → List AccessStatsMonthly → ℕ
counted g [] = 0
counted g (row ∷ rows) = (if group_eq row.group g then row.count else 0) + counted g rows

-- The accesses of a group, in the log and in the statistics.
unfoldable pub accesses : (ℕ → ℕ × ℕ) → Group → Tables → ℕ
accesses month_of g t =
    count (λ row. group_eq (group_of month_of row) g) t.access_log
    + counted g t.access_stats_monthly

module _ (g : Group) where
  add_to_group-counted :
      (h : Group) (rows : List AccessStatsMonthly)
      → counted g (add_to_group h rows) ≡ (if group_eq h g then 1 else 0) + counted g rows
  unfolding add_to_group counted
  add_to_group-counted h [] = refl
  add_to_group-counted h (row ∷ rows) = elim (Bool-cases (group_eq row.group h)) [
    | inl same ↦
        let e = group_eq-path row.group h same in let e' = ap (λ x. group_eq x g) e in ground arith
    | inr other ↦ ground (arith, add_to_group-counted h rows)
  ]

  aggregate-counted :
      (month_of : ℕ → ℕ × ℕ) (rows : List AccessLog)
      → counted g (aggregate month_of rows) ≡ count (λ row. group_eq (group_of month_of row) g) rows
  unfolding aggregate counted
  aggregate-counted month_of [] = refl
  aggregate-counted month_of (row ∷ rows) = omega (
    arith,
    add_to_group-counted (group_of month_of row) (aggregate month_of rows),
    aggregate-counted month_of rows,
  )

  insert_or_add-counted :
      (new : AccessStatsMonthly) (rows : List AccessStatsMonthly)
      → counted g (insert_or_add new rows)
        ≡ (if group_eq new.group g then new.count else 0) + counted g rows
  unfolding insert_or_add counted conflicts
  insert_or_add-counted new [] = omega arith
  insert_or_add-counted new (row ∷ rows) = elim (Bool-cases (conflicts row.group new.group)) [
    | inl same ↦
        let e = group_eq-path row.group new.group (ground arith) in
        let e' = ap (λ x. group_eq x g) e in ground arith
    | inr other ↦ ground (arith, insert_or_add-counted new rows)
  ]

  insert_all-counted :
      (news stats : List AccessStatsMonthly)
      → counted g (insert_all news stats) ≡ counted g news + counted g stats
  unfolding insert_all counted
  insert_all-counted [] stats = omega arith
  insert_all-counted (new ∷ news) stats =
      omega
        (arith, insert_all-counted news (insert_or_add new stats), insert_or_add-counted new stats)

split-count :
    {A : Type 0} (p q : A → Bool) (xs : List A)
    → count p xs ≡ count p (filter q xs) + count p (filter (λ x. not (q x)) xs)
split-count p q [] = omega arith
split-count p q (x ∷ xs) = ground (arith, split-count p q xs)

filter_none :
    {A : Type 0} (q : A → Bool) (xs : List A) → filter q xs ≡ [] → filter (λ x. not (q x)) xs ≡ xs
filter_none q [] h = refl
filter_none q (x ∷ xs) h = ground (arith, filter_none q xs)

aggregate_empty :
    (month_of : ℕ → ℕ × ℕ) (rows : List AccessLog) → aggregate month_of rows ≡ [] → rows ≡ []
unfolding aggregate add_to_group
aggregate_empty month_of [] h = refl
aggregate_empty month_of (row ∷ rows) h = absurd (never (aggregate month_of rows) h)
  where
    never : (stats : List AccessStatsMonthly) → add_to_group (group_of month_of row) stats ≢ []
    never [] e = ground arith
    never (s ∷ ss) e = elim (Bool-cases (group_eq s.group (group_of month_of row))) [
      | inl t ↦ ground arith
      | inr f ↦ ground arith
    ]

-- For every group of year, month, provider and client, the accesses in the log and in the
-- statistics are as many after the run as before, and of the log exactly the rows that are not
-- older than the retention are left, in their order.
pub run_retention-accesses :
    (month_of : ℕ → ℕ × ℕ) (months now : ℕ) (t : Tables) (g : Group)
    → (accesses month_of g (run_retention month_of months now t) ≡ accesses month_of g t)
      × ((run_retention month_of months now t).access_log
          ≡ filter
              (λ row. not (is_old (now - months * 30 * microseconds_per_day) row))
              t.access_log)
unfolding run_retention accesses purged
run_retention-accesses month_of months now t g =
    from_groups (aggregate month_of (filter old t.access_log)) refl
  where
    old : AccessLog → Bool
    old = is_old (now - months * 30 * microseconds_per_day)

    from_groups :
        (gs : List AccessStatsMonthly)
        → aggregate month_of (filter old t.access_log) ≡ gs
        → (accesses month_of g (purged (now - months * 30 * microseconds_per_day) t gs)
            ≡ accesses month_of g t)
          × ((purged (now - months * 30 * microseconds_per_day) t gs).access_log
              ≡ filter (λ row. not (old row)) t.access_log)
    from_groups [] e = (
      refl,
      sym (filter_none old t.access_log (aggregate_empty month_of (filter old t.access_log) e)),
    )
    from_groups (h ∷ hs) e =
        let same : AccessLog → Bool = λ row. group_eq (group_of month_of row) g in
        let grouped : counted g (h ∷ hs) ≡ count same (filter old t.access_log) =
          ap (counted g) (sym e) ∙ aggregate-counted g month_of (filter old t.access_log) in
        (
          omega (
            arith,
            insert_all-counted g (h ∷ hs) t.access_stats_monthly,
            grouped,
            split-count same old t.access_log,
          ),
          refl,
        )
