-- ===== src/Dashboard.antt =====
-- The dashboard: the snapshot job (backend/app/workers/snapshot_job.py), its repository
-- (backend/app/repositories/dashboard_repository.py) and DashboardService
-- (backend/app/services/dashboard_service.py).
pub mod Distribution
use road_vision_ai.Base.{
  ℕ, zero, suc, ◌+◌, ◌*◌, ◌≡◌, Bool, true, false, not, ◌&&◌, String, List, [], ◌∷◌, ◌++◌, map,
  Option, none, some, ◌==◌, ltb, leb, length, select, take, any, is_none, str_eq, if◌then◌else◌,
}
use road_vision_ai.Base.Sort.{sorted}
use road_vision_ai.Float.{Float}
use road_vision_ai.Schema.{
  Inspection, PciScore, DamageType, DamageDetection, DashboardSnapshot, DamageTypeStat, PciTrend,
  User,
}
use road_vision_ai.Store.{Db, Exec, pure, query, gets, write, new_key, commit, ◌>>=◌, ◌>>◌}
use road_vision_ai.Repository.{audit_log}
use road_vision_ai.Repository.Inspections.{opt_eq}

-- What PostgreSQL computes: `avg` of scores in hundredths (NULL for none), and the date of a time.
pub record Sql (W : Type 0) : Type 0 where
  pub avg : List ℕ → Option W
  pub date_of : ℕ → ℕ

-- A score of 40, in hundredths.
abbrev pub critical_pci_threshold : ℕ
critical_pci_threshold = 4000

-- `count(distinct ...)`
distinct : List ℕ → List ℕ
distinct [] = []
distinct (n ∷ ns) = let rest = distinct ns in if any (λ m. m == n) rest then rest else n ∷ rest

module _ {W : Type 0} where
  -- The road sections of the join of scores and inspections, for the scores below the threshold. A
  -- deleted inspection is joined too.
  critical_joined : List (PciScore W) → List Inspection → List ℕ
  critical_joined [] inspections = []
  critical_joined (p ∷ ps) inspections =
      let rest = critical_joined ps inspections in
      if ltb p.score critical_pci_threshold
      then map (λ (i : Inspection). i.road_section_id)
          (select (λ (i : Inspection). i.id == p.inspection_id) inspections)
        ++ rest
      else rest

  unfoldable pub critical_sections : List (PciScore W) → List Inspection → ℕ
  unfolding critical_joined distinct
  critical_sections scores inspections = length (distinct (critical_joined scores inspections))

  unfoldable pub count_of : DamageType W → List (DamageDetection W) → ℕ
  count_of t detections =
      length (select (λ (d : DamageDetection W). t.id == d.damage_type_id) detections)

  -- The join of damage types and detections, grouped by the code, which is unique: a type without a
  -- detection has no group.
  unfoldable pub distribution : List (DamageType W) → List (DamageDetection W) → List (String × ℕ)
  unfolding count_of
  distribution [] detections = []
  distribution (t ∷ ts) detections =
      let rest = distribution ts detections in
      let count = count_of t detections in if count == 0 then rest else (t.code, count) ∷ rest

-- `sum(count for _, count in rows)`
unfoldable pub total_of : List (String × ℕ) → ℕ
total_of [] = 0
total_of ((code, count) ∷ rows) = count + total_of rows

-- `total or 1`
unfoldable pub or_one : ℕ → ℕ
or_one zero = 1
or_one (suc n) = suc n

module _ {W D : Type 0} ⦃f : Float W⦄ where
  -- The rows of `damage_type_stats` of a snapshot.
  unfoldable pub add_stats : ℕ → ℕ → List (String × ℕ) → Exec W D (Unit {0})
  add_stats snapshot_id total [] = pure tt
  add_stats snapshot_id total ((code, count) ∷ rows) = do
    id ← new_key
    let stat : DamageTypeStat W = record {
      id = id;
      snapshot_id = snapshot_id;
      damage_type = code;
      count = count;
      percentage = some (f.round (f.div (f.lit (100 * count) 0) (f.lit total 0)) 2);
      avg_severity = none;
      period = none;
    }
    write (λ db. record db { damage_type_stats = db.damage_type_stats ++ stat ∷ [] })
    add_stats snapshot_id total rows

  unfoldable pub snapshot_of : Sql W → ℕ → ℕ → Db W D → DashboardSnapshot W
  unfolding critical_sections
  snapshot_of sql id now db = record {
    id = id;
    snapshot_date = sql.date_of now;
    total_inspections = length (select (λ (i : Inspection). is_none i.deleted_at) db.inspections);
    total_detections = length db.damage_detections;
    critical_sections = critical_sections db.pci_scores db.inspections;
    created_at = now;
    avg_pci_score = sql.avg (map (λ (p : PciScore W). p.score) db.pci_scores);
    total_budget = none;
    coverage_rate = none;
    region = none;
    province = none;
  }

  unfoldable pub compute_snapshot : Sql W → Exec W D (DashboardSnapshot W)
  unfolding snapshot_of distribution total_of or_one add_stats
  compute_snapshot sql = do
    id ← new_key
    now ← gets (λ s. s.now)
    snapshot ← query (snapshot_of sql id now)
    write (λ db. record db { dashboard_snapshots = db.dashboard_snapshots ++ snapshot ∷ [] })
    rows ← query (λ db. distribution db.damage_types db.damage_detections)
    add_stats snapshot.id (or_one (total_of rows)) rows
    pure snapshot

  unfoldable pub trigger_snapshot : Sql W → User → Exec W D (DashboardSnapshot W)
  unfolding compute_snapshot audit_log
  trigger_snapshot sql actor = do
    snapshot ← compute_snapshot sql
    audit_log "SNAPSHOT_COMPUTED" "dashboard_snapshots" snapshot.id (some actor.id) none none none
    commit
    pure snapshot

pub record DashboardSummary (W : Type 0) : Type 0 where
  pub snapshot : Option (DashboardSnapshot W)
  pub damage_stats : List (DamageTypeStat W)

-- A WHERE clause that is only added if the value is given.
abbrev given : (ℕ → Bool) → Option ℕ → Bool
given test none = true
given test (some n) = test n

abbrev named : Option String → Option String → Bool
named none column = true
named (some s) column = opt_eq str_eq column (some s)

module _ {W : Type 0} where
  -- `ORDER BY snapshot_date DESC, created_at DESC`
  unfoldable pub later : DashboardSnapshot W → DashboardSnapshot W → Bool
  later a b =
      if ltb b.snapshot_date a.snapshot_date
      then true
      else a.snapshot_date == b.snapshot_date && ltb b.created_at a.created_at

unfoldable pub head_of {ℓ} : {A : Type ℓ} → List A → Option A
head_of [] = none
head_of (x ∷ xs) = some x

module _ {W D : Type 0} where
  unfoldable pub latest_snapshot :
      Option String → Option String → Exec W D (Option (DashboardSnapshot W))
  unfolding later head_of
  latest_snapshot region province = query (λ db. head_of (
      sorted later (
        select (λ (s : DashboardSnapshot W). named region s.region && named province s.province)
          db.dashboard_snapshots)))

  unfoldable pub damage_stats : ℕ → Exec W D (List (DamageTypeStat W))
  damage_stats snapshot_id = query (λ db.
      sorted (λ (a b : DamageTypeStat W). ltb b.count a.count)
        (select (λ (s : DamageTypeStat W). s.snapshot_id == snapshot_id) db.damage_type_stats))

  unfoldable pub pci_trends : Option ℕ → Option ℕ → Option ℕ → ℕ → Exec W D (List (PciTrend W))
  pci_trends road_section_id date_from date_to limit = query (λ db. take limit (
      sorted (λ (a b : PciTrend W). ltb a.recorded_date b.recorded_date)
        (select
          (λ (t : PciTrend W).
            given (λ id. t.road_section_id == id) road_section_id
            && given (λ d. leb d t.recorded_date) date_from
            && given (λ d. leb t.recorded_date d) date_to)
          db.pci_trends)))

  unfoldable pub summary : Option String → Option String → Exec W D (DashboardSummary W)
  unfolding latest_snapshot damage_stats
  summary region province = do
    found ← latest_snapshot region province
    (elim found [
      | none ↦ pure (record { snapshot = none; damage_stats = [] })
      | some snapshot ↦ (do
        stats ← damage_stats snapshot.id
        pure (record { snapshot = some snapshot; damage_stats = stats }))
    ])
