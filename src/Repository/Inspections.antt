-- ===== src/Repository/Inspections.antt =====
-- `inspections` as a model with its triggers (infrastructure/postgres/init/01_schema_v4.2.sql), and
-- InspectionRepository (backend/app/repositories/inspection_repository.py).
use Prim.Native.Nat.{max}
use road_vision_ai.Base.{
  ℕ, ◌+◌, Bool, true, false, ◌&&◌, List, [], ◌∷◌, Option, none, some, str_eq, ◌==◌, ltb, length,
  find, select, take, drop, any, is_none, if◌then◌else◌,
}
use road_vision_ai.Base.Sort.{sorted}
use road_vision_ai.Enums.{InspectionStatus}
use road_vision_ai.Schema.{Inspection, RoadImage, RoadSection}
use road_vision_ai.Store.{Db, Exec, query}
use road_vision_ai.Repository.{Model, base_query, has_key}

abbrev status_code : InspectionStatus → ℕ
status_code InspectionStatus.en_attente = 0
status_code InspectionStatus.en_cours = 1
status_code InspectionStatus.terminee = 2
status_code InspectionStatus.annulee = 3
status_code InspectionStatus.validee = 4
status_code InspectionStatus.erreur = 5

unfoldable pub status_eq : InspectionStatus → InspectionStatus → Bool
status_eq a b = status_code a == status_code b

unfoldable pub opt_eq {ℓ} : {A : Type ℓ} → (A → A → Bool) → Option A → Option A → Bool
opt_eq eq none none = true
opt_eq eq (some a) (some b) = eq a b
opt_eq eq _ _ = false

-- `NEW IS DISTINCT FROM OLD` is the negation of this.
unfoldable pub same_row : Inspection → Inspection → Bool
unfolding status_eq opt_eq
same_row a b =
    a.id == b.id
    && a.road_section_id == b.road_section_id
    && a.created_by == b.created_by
    && status_eq a.status b.status
    && a.inspection_date == b.inspection_date
    && a.created_at == b.created_at
    && a.updated_at == b.updated_at
    && a.version == b.version
    && opt_eq (λ x y. x == y) a.validated_by b.validated_by
    && opt_eq str_eq a.weather_cond b.weather_cond
    && opt_eq str_eq a.notes b.notes
    && opt_eq (λ x y. x == y) a.deleted_at b.deleted_at

-- fn_set_updated_at
unfoldable pub set_updated_at : ℕ → Inspection → Inspection → Inspection
set_updated_at now old new = if same_row new old then new else record new { updated_at = now }

-- fn_increment_version
unfoldable pub increment_version : Inspection → Inspection → Inspection
increment_version old new =
    if same_row new old then new else record new { version = old.version + 1 }

-- A WHERE clause that is only added if the value is given.
abbrev if_given {ℓ} : {A : Type ℓ} → (A → Bool) → Option A → Bool
if_given test none = true
if_given test (some a) = test a

unfoldable pub matches_filter : Option InspectionStatus → Option ℕ → Option ℕ → Inspection → Bool
matches_filter status road_section_id created_by r =
    if_given (status_eq r.status) status
    && if_given (λ id. r.road_section_id == id) road_section_id
    && if_given (λ id. r.created_by == id) created_by

-- `coalesce(max(sequence_num), 0)`
unfoldable pub max_sequence : {W : Type 0} → List (RoadImage W) → ℕ
max_sequence [] = 0
max_sequence (i ∷ is) = max i.sequence_num (max_sequence is)

module _ {W D : Type 0} where
  -- The triggers run in the order of their names: trg_inspections_updated_at comes first.
  unfoldable pub inspections : Model W D Inspection
  inspections = record {
    rows = λ db. db.inspections;
    with_rows = λ rows db. record db { inspections = rows };
    key = λ r. r.id;
    soft = true;
    deleted_at = λ r. r.deleted_at;
    delete_at = λ now r. record r { deleted_at = some now };
    version = λ r. r.version;
    before_update = λ now old new. increment_version old (set_updated_at now old new);
  }

  -- The images of an inspection, as the relationship loads them.
  unfoldable pub images_of : ℕ → Db W D → List (RoadImage W)
  images_of inspection_id db =
      select (λ (i : RoadImage W). i.inspection_id == inspection_id) db.road_images

  unfoldable pub get_detail : ℕ → Exec W D (Option (Inspection × List (RoadImage W)))
  unfolding inspections base_query images_of
  get_detail inspection_id = query (λ db.
      elim (find (has_key inspections inspection_id) (base_query inspections db)) [
        | none ↦ none
        | some inspection ↦ some (inspection, images_of inspection.id db)
      ])

  -- The total counts all rows that fit; the page is cut from them, the latest inspection first.
  unfoldable pub list_filtered :
      Option InspectionStatus → Option ℕ → Option ℕ → ℕ → ℕ → Exec W D (List Inspection × ℕ)
  unfolding inspections base_query matches_filter
  list_filtered status road_section_id created_by limit offset = query (λ db.
      let stmt =
        select (matches_filter status road_section_id created_by) (base_query inspections db) in
      (
        take limit (
            drop offset
              (sorted (λ (a b : Inspection). ltb b.inspection_date a.inspection_date) stmt)),
        length stmt,
      ))

  unfoldable pub road_section_exists : ℕ → Exec W D Bool
  road_section_exists id =
      query (λ db. any (λ (s : RoadSection W). s.id == id && is_none s.deleted_at) db.road_sections)

  unfoldable pub next_sequence_num : ℕ → Exec W D ℕ
  unfolding images_of max_sequence
  next_sequence_num inspection_id = query (λ db. max_sequence (images_of inspection_id db) + 1)
