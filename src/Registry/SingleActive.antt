-- ===== src/Registry/SingleActive.antt =====
-- About the single active model (uq_one_active_model).
use road_vision_ai.Base.{
  ℕ, ◌≡◌, refl, inl, inr, true, false, List, [], ◌∷◌, map, none, some, http, err, ok, arith, ◌==◌,
  find, select, Bool-cases, Option-cases, if◌then◌else◌,
}
use road_vision_ai.Float.{Float}
use road_vision_ai.Enums.{ModelStatus}
use road_vision_ai.Schema.{AiModel, User}
use road_vision_ai.Store.{World}
use road_vision_ai.Registry.{retire, crown, one_active, promote}

module _ {W : Type 0} where
  -- The keys of a table: no two rows share one.
  abbrev pub Fresh : ℕ → List (AiModel W) → Type 0
  Fresh id [] = Unit
  Fresh id (m ∷ ms) = ((m.id == id) ≡ false) × Fresh id ms

  abbrev pub HasUniqueIds : List (AiModel W) → Type 0
  HasUniqueIds [] = Unit
  HasUniqueIds (m ∷ ms) = Fresh m.id ms × HasUniqueIds ms

  abbrev pub active : List (AiModel W) → List (AiModel W)
  active = select (λ (m : AiModel W). m.is_active)

  -- The table after a promotion.
  abbrev pub promoted : ℕ → ℕ → List (AiModel W) → List (AiModel W)
  promoted id now ms = map (crown id now) (map (retire now) ms)

  -- No row of a table whose keys are not `id` is active afterwards.
  promoted-Fresh :
      (id now : ℕ) (ms : List (AiModel W)) → Fresh id ms → active (promoted id now ms) ≡ []
  unfolding crown retire
  promoted-Fresh id now [] h = refl
  promoted-Fresh id now (m ∷ ms) h = ground (arith, h.0, promoted-Fresh id now ms h.1)

  crown-id :
      (id now : ℕ) (m : AiModel W)
      → (m.id == id) ≡ true
      → (crown id now (retire now m)).is_active ≡ true
  unfolding crown retire
  crown-id id now m h = ground (arith, h)

  Fresh-found :
      (id : ℕ) (x : AiModel W) (ms : List (AiModel W))
      → (x.id == id) ≡ true
      → Fresh x.id ms
      → Fresh id ms
  Fresh-found id x [] e h = tt
  Fresh-found id x (m ∷ ms) e h = (ground arith, Fresh-found id x ms e h.1)

  not_crowned :
      (id now : ℕ) (m : AiModel W)
      → (m.id == id) ≡ false
      → (crown id now (retire now m)).is_active ≡ false
  unfolding crown retire
  not_crowned id now m h = ground (arith, h)

  -- The row of a model that is promoted.
  abbrev pub in_production : ℕ → AiModel W → AiModel W
  in_production now m = record m {
    is_active = true;
    status = ModelStatus.production;
    deployed_at = some now;
    updated_at = now;
  }

  crown-retire :
      (id now : ℕ) (m : AiModel W)
      → (m.id == id) ≡ true
      → m.is_active ≡ false
      → crown id now (retire now m) ≡ in_production now m
  unfolding crown retire
  crown-retire id now m h idle = rw (idle, h) refl

  crowned : (id now : ℕ) (x : AiModel W) → ((crown id now (retire now x)).id == id) ≡ (x.id == id)
  unfolding crown retire
  crowned id now x = ground arith

  promoted_lem :
      (id now : ℕ) (ms : List (AiModel W)) {m : AiModel W}
      → HasUniqueIds ms
      → find (λ (x : AiModel W). x.id == id) ms ≡ some m
      → m.is_active ≡ false
      → active (promoted id now ms) ≡ in_production now m ∷ []
  promoted_lem id now [] keys found idle = cc
  promoted_lem id now (x ∷ ms) {m} keys found idle = elim (Bool-cases (x.id == id)) [
    | inl e ↦
        let q : x ≡ m = cc (rw e at found) in
        let i : x.is_active ≡ false = rw q idle in
        rw (← q) (
          rw (crown-retire id now x e i, promoted-Fresh id now ms (Fresh-found id x ms e keys.0))
            refl)
    | inr e ↦ rw (not_crowned id now x e) (promoted_lem id now ms keys.1 (rw e at found) idle)
  ]

  promoted-find :
      (id now : ℕ) (ms : List (AiModel W)) {m : AiModel W}
      → find (λ (x : AiModel W). x.id == id) ms ≡ some m
      → m.is_active ≡ false
      → find (λ (x : AiModel W). x.id == id) (promoted id now ms) ≡ some (in_production now m)
  promoted-find id now [] found idle = cc
  promoted-find id now (x ∷ ms) {m} found idle = elim (Bool-cases (x.id == id)) [
    | inl e ↦
        let q : x ≡ m = cc (rw e at found) in
        let i : x.is_active ≡ false = rw q idle in rw (← q) (rw (crown-retire id now x e i, e) refl)
    | inr e ↦ rw (crowned id now x, e) (promoted-find id now ms (rw e at found) idle)
  ]

module _ {W D : Type 0} ⦃f : Float W⦄ (id : ℕ) (actor : User) (s : World W D) where
  -- A promotion of a model that is there and not active succeeds, so it never meets the unique
  -- index on the active model; it commits, answers with the model in PRODUCTION, and leaves that
  -- model the only active one, if the keys of the table are unique.
  pub promote_ok :
      {m : AiModel W}
      → HasUniqueIds s.working.ai_models
      → find (λ (x : AiModel W). x.id == id) s.working.ai_models ≡ some m
      → m.is_active ≡ false
      → let (answer, s') = promote id actor s in
        (answer ≡ ok (in_production s.now m))
        × (s'.committed ≡ s'.working)
        × (active s'.committed.ai_models ≡ in_production s.now m ∷ [])
  unfolding promote one_active
  promote_ok {m} keys found idle =
      let only = promoted_lem id s.now s.working.ai_models keys found idle in
      let there = promoted-find id s.now s.working.ai_models found idle in
      rw (found, idle, only, there) (refl, refl, only)

  -- The answer of a promotion, if the keys of the table are unique: 404 for a key that is not
  -- there, 409 for the active model, else the model in PRODUCTION; never an integrity error.
  pub promote_answer :
      HasUniqueIds s.working.ai_models
      → (promote id actor s).0 ≡ elim (find (λ (x : AiModel W). x.id == id) s.working.ai_models) [
        | none ↦ err (http 404)
        | some m ↦ if m.is_active then err (http 409) else ok (in_production s.now m)
      ]
  unfolding promote
  promote_answer keys =
      elim (Option-cases (find (λ (x : AiModel W). x.id == id) s.working.ai_models)) [
        | inl e ↦ rw e refl
        | inr (m, e) ↦ elim (Bool-cases m.is_active) [
          | inl h ↦ rw (e, h) refl
          | inr h ↦ rw (promote_ok {m = m} keys e h).0 (rw (e, h) refl)
        ]
      ]
