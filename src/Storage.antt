-- ===== src/Storage.antt =====
-- The object store as the services use it (backend/app/services/storage_service.py). The MinIO
-- client is not code of the repository: an object is stored under its bucket and name, replaces
-- the one that was there, and a read of a missing object raises.
use road_vision_ai.Base.{
  ℕ, String, ◌≡◌, refl, Bool, false, not, ◌&&◌, [], ◌∷◌, ◌++◌, runtime_error, find, select, ok,
  ◌==◌, if◌then◌else◌,
}
use road_vision_ai.Text.{Text, text_eq}
use road_vision_ai.Store.{Object, Exec, pure, gets, or_raise, new_key, ◌>>=◌}

-- The settings of backend/app/core/config.py that the modelled code reads.
pub record Settings (W : Type 0) : Type 0 where
  pub jwt_secret_key : String
  pub jwt_algorithm : String
  pub access_token_expire_minutes : ℕ
  pub refresh_token_expire_days : ℕ
  pub minio_bucket_road_images : Text
  pub minio_bucket_reports : Text
  pub minio_bucket_models : Text
  pub rag_chunk_size : ℕ
  pub rag_chunk_overlap : ℕ
  pub rag_top_k : ℕ
  pub rag_similarity_threshold : W

-- The slash between a bucket and a name.
abbrev pub slash : ℕ
slash = 47

pub record StoredObject : Type 0 where
  pub bucket : Text
  pub object_name : Text

-- `StoredObject.storage_path`
unfoldable pub storage_path : StoredObject → Text
storage_path o = o.bucket ++ slash ∷ o.object_name

-- `text.partition("/")` without its middle part.
unfoldable pub partition : Text → Text × Text
partition [] = ([], [])
partition (c ∷ s) =
    let (head, tail) = partition s in if c == slash then ([], s) else (c ∷ head, tail)

-- A bucket's name has no slash.
abbrev pub HasNoSlash : Text → Type 0
HasNoSlash [] = Unit
HasNoSlash (c ∷ s) = ((c == slash) ≡ false) × HasNoSlash s

pub partition-append :
    (bucket name : Text) → HasNoSlash bucket → partition (bucket ++ slash ∷ name) ≡ (bucket, name)
unfolding partition
partition-append [] name h = refl
partition-append (c ∷ s) name h = rw (h.0, partition-append s name h.1) refl

-- The path of a stored object is taken apart into its bucket and its name again, whatever the
-- name, if the bucket's name has no slash.
pub partition-storage_path :
    (o : StoredObject)
    → HasNoSlash o.bucket
    → partition (storage_path o) ≡ (o.bucket, o.object_name)
unfolding storage_path
partition-storage_path o h = partition-append o.bucket o.object_name h

unfoldable pub is_at : Text → Text → Object → Bool
is_at bucket name o = text_eq o.bucket bucket && text_eq o.object_name name

module _ {W D : Type 0} where
  unfoldable pub put_object : Text → Text → Text → Exec W D StoredObject
  put_object bucket object_name content s = (
    ok (record { bucket = bucket; object_name = object_name }),
    record s {
      objects =
          record { bucket = bucket; object_name = object_name; content = content }
          ∷ select (λ o. not (is_at bucket object_name o)) s.objects;
    },
  )

  -- `{inspection_id}/{uuid4().hex}_{filename}`; the hex text of a key is its text.
  unfoldable pub put_image : Settings W → ℕ → Text → Text → Exec W D StoredObject
  unfolding put_object
  put_image settings inspection_id filename content = do
    id ← new_key
    uuid_text ← gets (λ s. s.uuid_text)
    put_object settings.minio_bucket_road_images
        (uuid_text inspection_id ++ slash ∷ uuid_text id ++ 95 ∷ filename) content

  unfoldable pub get_object : Text → Text → Exec W D Text
  get_object bucket object_name = do
    found ← gets (λ s. find (is_at bucket object_name) s.objects)
    o ← or_raise found runtime_error
    pure o.content
