-- ===== src/Dashboard/Distribution.antt =====
-- About the distribution of the detections over the damage types
-- (backend/app/workers/snapshot_job.py).
use road_vision_ai.Base.{
  ℕ, ◌+◌, ◌≡◌, refl, sym, ap, ◌∙◌, Bool, true, false, ◌||◌, List, [], ◌∷◌, arith, All, ◌==◌, length,
  select, any,
}
use road_vision_ai.Schema.{DamageType, DamageDetection}
use road_vision_ai.Dashboard.{count_of, distribution, total_of}

-- The elements that pass one of two tests that exclude each other.
length-select_or {ℓ} :
    {A : Type ℓ} (p q : A → Bool) (xs : List A)
    → ((x : A) → p x ≡ true → q x ≡ false)
    → length (select (λ x. p x || q x) xs) ≡ length (select p xs) + length (select q xs)
length-select_or p q [] apart = omega arith
length-select_or p q (x ∷ xs) apart = ground (arith, apart x, length-select_or p q xs apart)

length-select_none {ℓ} : {A : Type ℓ} (xs : List A) → length (select (λ x. false) xs) ≡ 0
length-select_none [] = refl
length-select_none (x ∷ xs) = length-select_none xs

module _ {W : Type 0} where
  -- The primary key: no two types have one key.
  abbrev pub IsKeyed : List (DamageType W) → Type 0
  IsKeyed [] = Unit
  IsKeyed (t ∷ ts) = All (λ (x : DamageType W). (x.id == t.id) ≡ false) ts × IsKeyed ts

  abbrev pub is_typed : List (DamageType W) → DamageDetection W → Bool
  is_typed ts d = any (λ (t : DamageType W). t.id == d.damage_type_id) ts

  apart :
      (t : DamageType W) (ts : List (DamageType W)) (n : ℕ)
      → All (λ (x : DamageType W). (x.id == t.id) ≡ false) ts
      → (t.id == n) ≡ true
      → any (λ (x : DamageType W). x.id == n) ts ≡ false
  apart t [] n k h = refl
  apart t (x ∷ xs) n k h = ground (arith, k.0, h, apart t xs n k.1 h)

  total_cons :
      (t : DamageType W) (ts : List (DamageType W)) (ds : List (DamageDetection W))
      → total_of (distribution (t ∷ ts) ds) ≡ count_of t ds + total_of (distribution ts ds)
  unfolding distribution total_of
  total_cons t ts ds = ground arith

  -- If the keys of the damage types are unique, the counts of a snapshot's distribution add up to
  -- the number of the detections that have a damage type: none is counted twice, none is lost.
  pub total_of-distribution :
      (ts : List (DamageType W)) (ds : List (DamageDetection W))
      → IsKeyed ts
      → total_of (distribution ts ds) ≡ length (select (is_typed ts) ds)
  unfolding distribution total_of count_of
  total_of-distribution [] ds k = sym (length-select_none ds)
  total_of-distribution (t ∷ ts) ds (k, ks) =
      total_cons t ts ds
      ∙ ap (λ n. count_of t ds + n) (total_of-distribution ts ds ks)
      ∙ sym (
          length-select_or (λ (d : DamageDetection W). t.id == d.damage_type_id) (is_typed ts) ds
            (λ d h. apart t ts d.damage_type_id k h))
