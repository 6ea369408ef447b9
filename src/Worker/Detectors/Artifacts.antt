-- ===== src/Worker/Detectors/Artifacts.antt =====
-- About the artifacts of a model: what `register` stores and `load_artifacts` reads
-- (backend/app/ai/detection/model_registry.py).
use mathlib.Core.List.{append_assoc}
use road_vision_ai.Base.{
  ◌≡◌, refl, sym, ap, ◌∙◌, inl, inr, false, not, String, List, [], ◌∷◌, ◌++◌, none, some, ok, any,
  find, select, Bool-cases,
}
use road_vision_ai.Text.{Text, codes, text_eq, text_eq_refl, text_eq-append}
use road_vision_ai.Float.{Float}
use road_vision_ai.Schema.{AiModel, User}
use road_vision_ai.Store.{Object, World}
use road_vision_ai.Storage.{
  Settings, HasNoSlash, slash, partition-append, is_at, put_object, get_object,
}
use road_vision_ai.Registry.{Metadata, new_model, is_named, register}
use road_vision_ai.Worker.Detectors.{
  Runtime, rsplit, rsplit_from, path_of, or_empty, config_of, load_artifacts,
}

rsplit_from-none : (s : Text) → HasNoSlash s → rsplit_from s ≡ none
unfolding rsplit_from
rsplit_from-none [] h = refl
rsplit_from-none (c ∷ s) h = rw (rsplit_from-none s h.1, h.0) refl

rsplit_from-append : (p s : Text) → HasNoSlash s → rsplit_from (p ++ slash ∷ s) ≡ some p
unfolding rsplit_from
rsplit_from-append [] s h = rw (rsplit_from-none s h) refl
rsplit_from-append (c ∷ p) s h = rw (rsplit_from-append p s h) refl

rsplit-append : (p s : Text) → HasNoSlash s → rsplit (p ++ slash ∷ s) ≡ p
unfolding rsplit
rsplit-append p s h = rw (rsplit, rsplit_from-append p s h) refl

best_pt-HasNoSlash : HasNoSlash (codes "best.pt")
best_pt-HasNoSlash = (refl, (refl, (refl, (refl, (refl, (refl, (refl, tt)))))))

-- A path with a slash in it is not empty.
path_of-append : (p s : Text) → path_of (some (p ++ slash ∷ s)) ≡ some (p ++ slash ∷ s)
unfolding path_of
path_of-append [] s = refl
path_of-append (c ∷ p) s = refl

-- The names of the two objects of a model, below its prefix.
abbrev pub weights_name : Text → Text
weights_name prefix = prefix ++ slash ∷ codes "best.pt"

abbrev pub config_name : Text → Text
config_name prefix = prefix ++ slash ∷ codes "model_config.json"

weights-config : (prefix : Text) → text_eq (weights_name prefix) (config_name prefix) ≡ false
unfolding text_eq
weights-config prefix =
    text_eq-append prefix (slash ∷ codes "best.pt") (slash ∷ codes "model_config.json")

config-weights : (prefix : Text) → text_eq (config_name prefix) (weights_name prefix) ≡ false
unfolding text_eq
config-weights prefix =
    text_eq-append prefix (slash ∷ codes "model_config.json") (slash ∷ codes "best.pt")

-- The store after both objects have been put.
abbrev holding : Text → Text → Text → Text → List Object → List Object
holding bucket prefix weights config rest =
    record { bucket = bucket; object_name = config_name prefix; content = config }
    ∷ select (λ o. not (is_at bucket (config_name prefix) o))
        (record { bucket = bucket; object_name = weights_name prefix; content = weights } ∷ rest)

module _ {W D : Type 0} ⦃f : Float W⦄ (rt : Runtime W) (bucket prefix weights config : Text)
    (rest : List Object) (t : World W D)
    (held : t.objects ≡ holding bucket prefix weights config rest) where
  found_weights :
      find (is_at bucket (weights_name prefix)) t.objects
      ≡ some (record { bucket = bucket; object_name = weights_name prefix; content = weights })
  unfolding is_at
  found_weights =
      let own = text_eq_refl bucket in
      rw (held, own, weights-config prefix, config-weights prefix)
        (rw (own, text_eq_refl (weights_name prefix)) refl)

  found_config :
      find (is_at bucket (config_name prefix)) t.objects
      ≡ some (record { bucket = bucket; object_name = config_name prefix; content = config })
  unfolding is_at
  found_config = rw (held, text_eq_refl bucket, text_eq_refl (config_name prefix)) refl

  get_weights : get_object bucket (weights_name prefix) t ≡ (ok weights, t)
  unfolding get_object
  get_weights = rw (get_object, found_weights) refl

  read_config :
      config_of rt bucket (rsplit (weights_name prefix) ++ slash ∷ codes "model_config.json") t
      ≡ (ok (or_empty (rt.class_mapping_of config)), t)
  unfolding config_of get_object
  read_config =
      rw (rsplit-append prefix (codes "best.pt") best_pt-HasNoSlash)
        (rw (config_of, get_object, found_config) refl)

  -- What is read of a model whose path is that of the weights.
  load_artifacts-held :
      (m : AiModel W)
      → HasNoSlash bucket
      → m.weights_path ≡ some (bucket ++ slash ∷ weights_name prefix)
      → (load_artifacts {W = W} {D = D} rt m t).0
        ≡ ok (weights, or_empty (rt.class_mapping_of config))
  unfolding load_artifacts
  load_artifacts-held m plain path =
      rw (path, path_of-append bucket (weights_name prefix))
        (rw (partition-append bucket (weights_name prefix) plain)
          (rw get_weights (rw read_config refl)))

-- The prefix of the objects of a model.
abbrev prefix_of : String → String → Text
prefix_of name version = codes name ++ slash ∷ codes version

module _ {W D : Type 0} ⦃f : Float W⦄ (settings : Settings W) (name version : String)
    (weights config : Text) (metadata : Metadata W) (actor : User) (s : World W D) where
  registered :
      {m : AiModel W}
      → (register settings name version weights config metadata actor s).0 ≡ ok m
      → (m.weights_path
          ≡ some (settings.minio_bucket_models ++ slash ∷ weights_name (prefix_of name version)))
        × ((register settings name version weights config metadata actor s).1.objects
            ≡ holding settings.minio_bucket_models (prefix_of name version) weights config (
                select
                  (λ o.
                    not (
                      is_at settings.minio_bucket_models (weights_name (prefix_of name version)) o))
                  s.objects))
  unfolding register new_model put_object
  registered {m} h = elim (Bool-cases (any (is_named name version) s.working.ai_models)) [
    | inl e ↦ cc (rw e at h)
    | inr e ↦
        let same : new_model s.next_id s.now settings name version weights metadata actor ≡ m =
          cc (rw e at h) in
        rw e (ap (λ (x : AiModel W). x.weights_path) (sym same) ∙ ap some (simp append_assoc), refl)
  ]

  register_answer :
      any (is_named name version) s.working.ai_models ≡ false
      → (m : AiModel W) × ((register settings name version weights config metadata actor s).0
          ≡ ok m)
  unfolding register
  register_answer e = rw e (_, refl)

  -- A model can be loaded as it was registered: after a registration that succeeded, if the bucket's
  -- name has no slash, its artifacts are the weights that were uploaded and the class mapping of the
  -- configuration, in any later world with the same objects.
  pub load_artifacts-register :
      (rt : Runtime W) {m : AiModel W} (t : World W D)
      → HasNoSlash settings.minio_bucket_models
      → (register settings name version weights config metadata actor s).0 ≡ ok m
      → t.objects ≡ (register settings name version weights config metadata actor s).1.objects
      → (load_artifacts rt m t).0 ≡ ok (weights, or_empty (rt.class_mapping_of config))
  load_artifacts-register rt {m} t plain h same =
      let (path, held) = registered h in
      load_artifacts-held rt settings.minio_bucket_models (prefix_of name version) weights config _
        t (same ∙ held) m plain path

module _ {W D : Type 0} ⦃f : Float W⦄ (rt : Runtime W) (settings : Settings W)
    (name version name' version' : String) (weights config weights' config' : Text)
    (metadata metadata' : Metadata W) (actor actor' : User) (s : World W D) where
  -- Two models with different names and versions may have the same objects: a registration whose
  -- name, slash and version spell the same text as those of a model that is registered succeeds if
  -- its name and version are not taken, and from then on the artifacts of the first model are those
  -- of the second (if the bucket's name has no slash).
  pub register_collides :
      {m : AiModel W}
      → HasNoSlash settings.minio_bucket_models
      → codes name ++ slash ∷ codes version ≡ codes name' ++ slash ∷ codes version'
      → (register settings name version weights config metadata actor s).0 ≡ ok m
      → let s' = (register settings name version weights config metadata actor s).1 in
        any (is_named name' version') s'.working.ai_models ≡ false
        → let (answer, t) = register settings name' version' weights' config' metadata' actor' s' in
          (m' : AiModel W) × (answer ≡ ok m')
          × ((load_artifacts rt m t).0 ≡ ok (weights', or_empty (rt.class_mapping_of config')))
  register_collides {m} plain spelled h fresh =
      let s' = (register settings name version weights config metadata actor s).1 in
      let (m', made) =
        register_answer settings name' version' weights' config' metadata' actor' s' fresh in
      let (path, _) = registered settings name version weights config metadata actor s h in
      let (_, held) =
        registered settings name' version' weights' config' metadata' actor' s' made in
      (
        m',
        made,
        load_artifacts-held rt settings.minio_bucket_models (prefix_of name' version') weights'
            config' _ _ held m plain
            (path
              ∙ ap (λ p. some (settings.minio_bucket_models ++ slash ∷ weights_name p)) spelled),
      )
