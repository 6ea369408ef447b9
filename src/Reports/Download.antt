-- ===== src/Reports/Download.antt =====
-- About the download of a report (backend/app/services/report_service.py).
use road_vision_ai.Base.{
  ℕ, ◌+◌, ◌≡◌, refl, sym, ap, ◌∙◌, inl, inr, Bool, true, String, List, [], ◌∷◌, ◌++◌, Option, none,
  some, ok, ◌==◌, ==_refl, any, find, select, length, Bool-cases, Option-cases, Result-cases,
}
use road_vision_ai.Text.{Text, text_eq_refl}
use road_vision_ai.Schema.{InspectionReport, MaintenancePlan, User}
use road_vision_ai.Store.{Db, World, in_session}
use road_vision_ai.Storage.{
  Settings, StoredObject, HasNoSlash, slash, storage_path, partition-storage_path, get_object,
  is_at,
}
use road_vision_ai.Repository.{base_query, is_live}
use road_vision_ai.Reports.{
  Publishing, build_pdf, new_report, object_name_of, reports, report_file, generate_for_plan,
  get_report, download_url,
}

module _ {W D : Type 0} (press : Publishing) (settings : Settings W) (plan_id : ℕ) (title : String)
    (summary : Option String) (actor : User) (s : World W D) where
  -- Where a generation stores its PDF, and its row.
  abbrev pub name_of : Text
  name_of = object_name_of s.uuid_text plan_id s.next_id

  abbrev pub row_of : Text → InspectionReport W
  row_of pdf =
      new_report (s.next_id + 1) s.now plan_id title summary
        (settings.minio_bucket_reports ++ slash ∷ name_of) (length pdf)

  generated :
      {report : InspectionReport W}
      → (generate_for_plan press settings plan_id title summary actor s).0 ≡ ok report
      → let s' = (generate_for_plan press settings plan_id title summary actor s).1 in
        (pdf : Text) × (build_pdf press s.now title summary ≡ ok pdf)
        × (find (λ (r : InspectionReport W). r.plan_id == plan_id) s.working.inspection_reports
            ≡ none)
        × (report ≡ row_of pdf)
        × (s'.committed ≡ s'.working)
        × (s'.committed.inspection_reports ≡ s.working.inspection_reports ++ row_of pdf ∷ [])
        × ((get_object settings.minio_bucket_reports name_of s').0 ≡ ok pdf)
  unfolding generate_for_plan get_object is_at
  generated {report} h =
      elim (Bool-cases
        (any (λ (p : MaintenancePlan W). p.id == plan_id) s.working.maintenance_plans)) [
          | inr e ↦ cc (rw e at h)
          | inl e ↦
              elim (Option-cases (
                find (λ (r : InspectionReport W). r.plan_id == plan_id)
                  s.working.inspection_reports)) [
                    | inr (x, k) ↦ cc (rw (e, k) at h)
                    | inl k ↦ elim (Result-cases (build_pdf press s.now title summary)) [
                      | inl (x, b) ↦ cc (rw (e, k, b) at h)
                      | inr (pdf, b) ↦
                          let same : row_of pdf ≡ report = cc (rw (e, k, b) at h) in
                          rw (e, k, b)
                            (
                              pdf,
                              refl,
                              refl,
                              sym same,
                              refl,
                              refl,
                              rw (text_eq_refl settings.minio_bucket_reports, text_eq_refl name_of)
                                  refl,
                            )
                    ]
                  ]
        ]

find-append {ℓ} :
    {A : Type ℓ} (p : A → Bool) (xs : List A) (x : A)
    → find p xs ≡ none
    → p x ≡ true
    → find p (xs ++ x ∷ []) ≡ some x
find-append p [] x h k = rw k refl
find-append p (y ∷ xs) x h k = elim (Bool-cases (p y)) [
  | inl e ↦ cc (rw e at h)
  | inr e ↦ rw e (find-append p xs x (rw e at h) k)
]

select-true {ℓ} : {A : Type ℓ} (xs : List A) → select (λ x. true) xs ≡ xs
select-true [] = refl
select-true (x ∷ xs) = rw (select-true xs) refl

-- A path with a slash in it is not empty.
row_file :
    (W : Type 0) (id now plan_id : ℕ) (title : String) (summary : Option String)
    (bucket name : Text) (size : ℕ)
    → report_file (new_report {W = W} id now plan_id title summary (bucket ++ slash ∷ name) size)
      ≡ some (storage_path (record { bucket = bucket; object_name = name }))
unfolding report_file new_report storage_path
row_file W id now plan_id title summary [] name size = refl
row_file W id now plan_id title summary (c ∷ bucket) name size = refl

-- A read of an object does not look at the tables.
get_object-same :
    {W D : Type 0} (bucket name : Text) (t : World W D) (db : Db W D)
    → (get_object bucket name (record t { working = db })).0 ≡ (get_object bucket name t).0
unfolding get_object
get_object-same bucket name t db = elim (Option-cases (find (is_at bucket name) t.objects)) [
  | inl e ↦ rw e refl
  | inr (o, e) ↦ rw e refl
]

-- No report is ever hidden.
all_reports : {W D : Type 0} (db : Db W D) → base_query reports db ≡ db.inspection_reports
unfolding base_query is_live reports
all_reports db = select-true db.inspection_reports

module _ {W D : Type 0} (press : Publishing) where
  download_row :
      (id : ℕ) (o : StoredObject) (t : World W D) {r : InspectionReport W}
      → find (λ (x : InspectionReport W). x.id == id) t.working.inspection_reports ≡ some r
      → report_file r ≡ some (storage_path o)
      → HasNoSlash o.bucket
      → (download_url press id t).0 ≡ press.sign o.bucket o.object_name
  unfolding download_url get_report reports
  download_row id o t {r} found path h =
      rw (all_reports t.working, found, path, partition-storage_path o h) refl

module _ {W D : Type 0} (press : Publishing) (settings : Settings W) (plan_id : ℕ) (title : String)
    (summary : Option String) (actor : User) (s : World W D) where
  -- The report of a plan can be downloaded as it was drawn: after a generation that succeeded, if
  -- the key of its row was new and the bucket's name has no slash, the download of that report asks
  -- MinIO for a link to one object, and that object holds the PDF. The plan had no report before.
  pub generate_downloads :
      {report : InspectionReport W}
      → HasNoSlash settings.minio_bucket_reports
      → find (λ (r : InspectionReport W). r.id == s.next_id + 1) s.committed.inspection_reports
        ≡ none
      → (in_session (generate_for_plan press settings plan_id title summary actor) s).0 ≡ ok report
      → let s' = (in_session (generate_for_plan press settings plan_id title summary actor) s).1 in
        (name : Text) × (pdf : Text) × (build_pdf press s.now title summary ≡ ok pdf)
        × ((download_url press report.id s').0 ≡ press.sign settings.minio_bucket_reports name)
        × ((get_object settings.minio_bucket_reports name s').0 ≡ ok pdf)
        × (find (λ (r : InspectionReport W). r.plan_id == plan_id) s.committed.inspection_reports
            ≡ none)
  unfolding in_session new_report
  generate_downloads {report} apart fresh h =
      let t : World W D = record s { working = s.committed } in
      let t' = (generate_for_plan press settings plan_id title summary actor t).1 in
      let u : World W D = record t' { working = t'.committed } in
      let bucket = settings.minio_bucket_reports in
      let name = name_of press settings plan_id title summary actor t in
      let (pdf, built, before, same, committed, rows, stored) =
        generated press settings plan_id title summary actor t {report = report} h in
      let row = row_of press settings plan_id title summary actor t pdf in
      let found : find (λ (x : InspectionReport W). x.id == s.next_id + 1)
            t'.committed.inspection_reports
          ≡ some row =
        rw rows (
          find-append (λ (x : InspectionReport W). x.id == s.next_id + 1) _ row fresh
            (==_refl (s.next_id + 1))) in
      let link =
        download_row press (s.next_id + 1) (record { bucket = bucket; object_name = name }) u
          {r = row} found (row_file W _ _ _ _ _ bucket name _) apart in
      (
        name,
        pdf,
        built,
        ap (λ (r : InspectionReport W). (download_url press r.id u).0) same ∙ link,
        get_object-same bucket name t' t'.committed ∙ stored,
        before,
      )
