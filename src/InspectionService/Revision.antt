-- ===== src/InspectionService/Revision.antt =====
-- The row that a PATCH leaves (`update` of backend/app/services/inspection_service.py, with the
-- triggers of the table).
use road_vision_ai.Enums.{InspectionStatus}
use road_vision_ai.Base.{
  Bool, ◌==◌, ==_refl, ℕ, ◌+◌, ◌≡◌, refl, inl, inr, true, false, ◌&&◌, String, Option, none, some,
  is_none, arith, Bool-cases, if◌then◌else◌, str_eq,
}
use road_vision_ai.Schema.{Inspection}
use road_vision_ai.Repository.Inspections.{
  opt_eq, status_eq, same_row, set_updated_at, increment_version,
}
use road_vision_ai.Repository.Laws.{IsPatch, Changes, touched}
use road_vision_ai.InspectionService.{InspectionUpdate, patch, has_values}

pub patch-IsPatch : (body : InspectionUpdate) → IsPatch (patch body)
unfolding patch
patch-IsPatch body = record { id = λ r. refl; deleted = λ r. refl }

-- The body gives the weather or the notes a value that the row does not have.
abbrev pub Differs : InspectionUpdate → Inspection → Type 0
Differs body r =
    opt_eq str_eq (patch body r).weather_cond r.weather_cond
      && opt_eq str_eq (patch body r).notes r.notes
    ≡ false

pub patch-Changes :
    (body : InspectionUpdate) (r : Inspection) → Differs body r → Changes (patch body) r
unfolding same_row patch
patch-Changes body r h = λ t. ground (arith, h)

-- A text that is given replaces the old one.
abbrev pub given : Option String → Option String → Option String
given none old = old
given (some new) old = some new

-- The row that a PATCH leaves.
abbrev pub revised : InspectionUpdate → ℕ → Inspection → Inspection
revised body now r =
    let weather_cond = given body.weather_cond r.weather_cond in
    let notes = given body.notes r.notes in
    if opt_eq str_eq weather_cond r.weather_cond && opt_eq str_eq notes r.notes
    then record r { weather_cond = weather_cond; notes = notes }
    else record r {
      weather_cond = weather_cond;
      notes = notes;
      updated_at = now;
      version = r.version + 1;
    }

patch-given :
    (body : InspectionUpdate) (r : Inspection)
    → patch body r ≡ record r {
      weather_cond = given body.weather_cond r.weather_cond;
      notes = given body.notes r.notes;
    }
unfolding patch
patch-given body r = ground arith

and_both : (a b : Bool) → a && b ≡ true → (a ≡ true) × (b ≡ true)
and_both true b h = (refl, h)
and_both false b h = cc

opt_refl : (o : Option ℕ) → opt_eq (λ x y. x == y) o o ≡ true
unfolding opt_eq
opt_refl none = refl
opt_refl (some n) = ==_refl n

status_refl : (status : InspectionStatus) → status_eq status status ≡ true
unfolding status_eq
status_refl InspectionStatus.en_attente = refl
status_refl InspectionStatus.en_cours = refl
status_refl InspectionStatus.terminee = refl
status_refl InspectionStatus.annulee = refl
status_refl InspectionStatus.validee = refl
status_refl InspectionStatus.erreur = refl

same_texts :
    (w n : Option String) (r : Inspection)
    → opt_eq str_eq w r.weather_cond ≡ true
    → opt_eq str_eq n r.notes ≡ true
    → same_row (record r { weather_cond = w; notes = n }) r ≡ true
unfolding same_row
same_texts w n r h k =
    rw
      (
        ==_refl r.id,
        ==_refl r.road_section_id,
        ==_refl r.created_by,
        status_refl r.status,
        ==_refl r.inspection_date,
        ==_refl r.created_at,
        ==_refl r.updated_at,
        ==_refl r.version,
        opt_refl r.validated_by,
        opt_refl r.deleted_at,
        h,
        k,
      )
      refl

pub touched-revised :
    (body : InspectionUpdate) (now : ℕ) (r : Inspection)
    → touched (patch body) now r ≡ revised body now r
unfolding set_updated_at increment_version
touched-revised body now r =
    let w = given body.weather_cond r.weather_cond in
    let n = given body.notes r.notes in
    elim (Bool-cases (opt_eq str_eq w r.weather_cond && opt_eq str_eq n r.notes)) [
      | inl e ↦
          let (h, k) = and_both _ _ e in
          rw (patch-given body r, e, same_texts w n r h k, same_texts w n r h k) refl
      | inr e ↦
          let c = patch-Changes body r (rw (patch-given body r) e) in
          rw (e, c (patch body r).updated_at, c now) (rw (patch-given body r) refl)
    ]

pub blank :
    (body : InspectionUpdate)
    → is_none body.weather_cond && is_none body.notes ≡ true
    → has_values body ≡ false
unfolding has_values
blank body h = ground arith

pub not_blank :
    (body : InspectionUpdate)
    → is_none body.weather_cond && is_none body.notes ≡ false
    → has_values body ≡ true
unfolding has_values
not_blank body h = ground arith
