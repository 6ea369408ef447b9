-- ===== src/InspectionService/Locking.antt =====
-- About the optimistic locking of PATCH (rule #4).
use road_vision_ai.Base.{
  ℕ, ◌≡◌, refl, inl, inr, true, false, ◌&&◌, List, [], ◌∷◌, map, none, some, is_none, http, err, ok,
  Exn, any, All, Bool-cases, Option-cases, if◌then◌else◌,
}
use road_vision_ai.Schema.{Inspection, User}
use road_vision_ai.Store.{World, in_session}
use road_vision_ai.Repository.Laws.{Changes, hit, fits, live_row, live_row-hit, any-fits-hit}
use road_vision_ai.InspectionService.{InspectionUpdate, patch, has_values, update}
use road_vision_ai.InspectionService.Revision.{
  Differs, revised, patch-IsPatch, patch-Changes, touched-revised, blank, not_blank,
}

module _ {W D : Type 0} (id : ℕ) (body : InspectionUpdate) (actor : User) (s : World W D) where
  update_missing :
      live_row id s.working.inspections ≡ none → (update id body actor s).0 ≡ err (http 404)
  unfolding update
  update_missing h = rw h refl

  update_stale :
      {r : Inspection}
      → live_row id s.working.inspections ≡ some r
      → has_values body ≡ true
      → any (fits id body.version) s.working.inspections ≡ false
      → let (answer, s') = update id body actor s in
        (answer ≡ err (http 409)) × (s'.committed ≡ s.committed)
  unfolding update
  update_stale h v e = rw (h, v, e) (refl, refl)

  pub update_fresh :
      {r : Inspection}
      → live_row id s.working.inspections ≡ some r
      → has_values body ≡ true
      → any (fits id body.version) s.working.inspections ≡ true
      → let (result, s') = update id body actor s in
        (result ≡ ok (hit id body.version (patch body) s.now r))
        × (s'.working.inspections
            ≡ map (hit id body.version (patch body) s.now) s.working.inspections)
        × (s'.committed.inspections
            ≡ map (hit id body.version (patch body) s.now) s.working.inspections)
  unfolding update
  update_fresh h v e =
      rw
        (
          h,
          v,
          e,
          live_row-hit id body.version (patch body) s.now (patch-IsPatch body) s.working.inspections
              id,
          h,
        )
        (refl, refl, refl)

  update_empty :
      {r : Inspection}
      → live_row id s.working.inspections ≡ some r
      → has_values body ≡ false
      → (update id body actor s).0 ≡ ok r
  unfolding update
  update_empty h v = rw (h, v, h) refl

  pub update_cases : (update id body actor s).0 ≡ elim (live_row id s.working.inspections) [
    | none ↦ err (http 404)
    | some r ↦
        if has_values body
        then (if any (fits id body.version) s.working.inspections
            then ok (hit id body.version (patch body) s.now r)
            else err (http 409))
        else ok r
  ]
  update_cases = elim (Option-cases (live_row id s.working.inspections)) [
    | inl h ↦ rw h (update_missing h)
    | inr (r, h) ↦ elim (Bool-cases (has_values body)) [
      | inr v ↦ rw (h, v) (update_empty h v)
      | inl v ↦ elim (Bool-cases (any (fits id body.version) s.working.inspections)) [
        | inl e ↦ rw (h, v, e) (update_fresh h v e).0
        | inr e ↦ rw (h, v, e) (update_stale h v e).0
      ]
    ]
  ]

  -- The answer of a PATCH: 404 if the inspection is missing or deleted; the row unchanged if the
  -- body gives neither the weather nor notes, whatever its version; 409 if no row has the key and
  -- the version that the body expects; else the row that was found and has that version, with the
  -- weather and the notes that are given and its other columns kept, but for `updated_at` and
  -- `version`: if one of the two texts is new, these are the time and the next version.
  pub update_answer : (update id body actor s).0 ≡ elim (live_row id s.working.inspections) [
    | none ↦ err (http 404)
    | some r ↦
        if is_none body.weather_cond && is_none body.notes
        then ok r
        else if any (fits id body.version) s.working.inspections
        then ok (if fits id body.version r then revised body s.now r else r)
        else err (http 409)
  ]
  update_answer = elim (Option-cases (live_row id s.working.inspections)) [
    | inl h ↦ rw h (update_missing h)
    | inr (r, h) ↦ elim (Bool-cases (is_none body.weather_cond && is_none body.notes)) [
      | inl v ↦ rw (h, v) (update_empty h (blank body v))
      | inr v ↦
          let sets = not_blank body v in
          elim (Bool-cases (any (fits id body.version) s.working.inspections)) [
            | inl e ↦ rw (h, v, e, ← touched-revised body s.now r) (update_fresh h sets e).0
            | inr e ↦ rw (h, v, e) (update_stale h sets e).0
          ]
    ]
  ]

  missing_committed :
      live_row id s.working.inspections ≡ none → (update id body actor s).1.committed ≡ s.committed
  unfolding update
  missing_committed h = rw h refl

  pub update_raised :
      {e : Exn}
      → (update id body actor s).0 ≡ err e
      → (update id body actor s).1.committed ≡ s.committed
  update_raised raised = elim (Option-cases (live_row id s.working.inspections)) [
    | inl h ↦ missing_committed h
    | inr (r, h) ↦ elim (Bool-cases (has_values body)) [
      | inr v ↦ cc (update_empty h v)
      | inl v ↦ elim (Bool-cases (any (fits id body.version) s.working.inspections)) [
        | inl e ↦ cc ((update_fresh h v e).0)
        | inr e ↦ (update_stale h v e).1
      ]
    ]
  ]

  -- A PATCH that sets something and succeeds has found its version.
  update_succeeded :
      {r r' : Inspection}
      → live_row id s.working.inspections ≡ some r
      → has_values body ≡ true
      → (update id body actor s).0 ≡ ok r'
      → any (fits id body.version) s.working.inspections ≡ true
  update_succeeded h v done = elim (Bool-cases (any (fits id body.version) s.working.inspections)) [
    | inl e ↦ e
    | inr e ↦ cc ((update_stale h v e).0)
  ]

Changes-All :
    (id : ℕ) (body : InspectionUpdate) (rows : List Inspection)
    → All (λ x. fits id body.version x ≡ true → Differs body x) rows
    → All (λ x. fits id body.version x ≡ true → Changes (patch body) x) rows
Changes-All id body [] h = tt
Changes-All id body (r ∷ rows) h =
    ((λ e. patch-Changes body r (h.0 e)), Changes-All id body rows h.1)

module _ {W D : Type 0} (id : ℕ) (body body' : InspectionUpdate) (actor actor' : User)
    (s : World W D) where
  -- Of two PATCH requests from one version the second is refused: after a request that succeeded
  -- and changed the weather or the notes, a request with the same version that sets something
  -- raises 409 and commits nothing.
  pub update_conflict :
      {r r' : Inspection}
      → live_row id s.committed.inspections ≡ some r
      → All (λ x. fits id body.version x ≡ true → Differs body x) s.committed.inspections
      → has_values body ≡ true
      → has_values body' ≡ true
      → body'.version ≡ body.version
      → (in_session (update id body actor) s).0 ≡ ok r'
      → let s' = (in_session (update id body actor) s).1 in
        let (answer, s'') = in_session (update id body' actor') s' in
        (answer ≡ err (http 409)) × (s''.committed ≡ s'.committed)
  unfolding in_session
  update_conflict {r} live differs v v' same done =
      let s0 : World W D = record s { working = s.committed } in
      let (_, _, rows) =
        update_fresh id body actor s0 live v (update_succeeded id body actor s0 live v done) in
      let s1 : World W D = (update id body actor s0).1 in
      let s2 : World W D = record s1 { working = s1.committed } in
      let (answer, kept) =
        update_stale id body' actor' s2 {r = hit id body.version (patch body) s.now r}
          (rw
            (
              rows,
              live_row-hit id body.version (patch body) s.now (patch-IsPatch body)
                  s.committed.inspections id,
              live,
            )
            refl)
          v'
          (rw (rows, same)
            (any-fits-hit id body.version (patch body) s.now s.committed.inspections
              (Changes-All id body s.committed.inspections differs))) in
      (answer, kept)
