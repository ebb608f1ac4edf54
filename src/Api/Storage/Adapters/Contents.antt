-- ===== src/Api/Storage/Adapters/Contents.antt =====
-- What a stored object is read back as, and what a deletion leaves.
use honor.Common.{
  ◌≡◌, refl, ap, Bool, List, [], ◌∷◌, none, Result, ok, err, >>=-eq-ok, ok-injective, inl, inr,
  Bool-cases,
}
use honor.Api.Storage.{Text, StorageError, file_not_found, same_path, validated_key, local_path}
use honor.Api.Storage.Keys.{same_refl, same_path_refl, validated_key_twice}
use honor.Api.Storage.Adapters.{
  StoredObject, read, remove, Files, Objects, found, stored, deleted, written, local_put, r2_put,
  local_get, local_delete, r2_get,
}

module _ {ℓ} {A : Type ℓ} (same_name : A → A → Bool) where
  read-remove :
      (name : A) (entries : List (A × Text))
      → read same_name name (remove same_name name entries) ≡ none
  unfolding read remove
  read-remove name [] = refl
  read-remove name ((other, content) ∷ rest) = elim (Bool-cases (same_name other name)) [
    | inl hit ↦ rw hit (read-remove name rest)
    | inr miss ↦ rw (miss, miss) (read-remove name rest)
  ]

stored-ok {ℓ} :
    {S : Type ℓ} (old new : S) (object : StoredObject) (r : Result StorageError (StoredObject × S))
    → stored old r ≡ (ok object, new)
    → r ≡ ok (object, new)
unfolding stored
stored-ok {S = S} old new object (err e) h =
    absurd (let h' = ap (λ (q : Result StorageError StoredObject × S). q.0) h in cc)
stored-ok {S = S} old new object (ok (o, s)) h =
    let same_object = ok-injective (ap (λ (q : Result StorageError StoredObject × S). q.0) h) in
    let same_contents = ap (λ (q : Result StorageError StoredObject × S). q.1) h in
    cc (same_object, same_contents)

module _ (digest : Text → Text) where
  written-ok :
      (writable : List Text → Bool) (key content content_type : Text) (files : Files)
      (path : List Text) (object : StoredObject) (files' : Files)
      → written digest writable key content content_type files path ≡ ok (object, files')
      → (path, content) ∷ files ≡ files'
  unfolding written
  written-ok writable key content content_type files path object files' h =
      elim (Bool-cases (writable path)) [
        | inl hit ↦ ap (λ (q : StoredObject × Files). q.1) (ok-injective (rw hit at h))
        | inr miss ↦ absurd (let h' = rw miss at h in cc)
      ]

  local_path-twice :
      (root : List Text) (key checked : Text)
      → validated_key key ≡ ok checked
      → local_path root key ≡ local_path root checked
  unfolding local_path
  local_path-twice root key checked h = rw (h, validated_key_twice key checked h) refl

  -- After a `put` of the local adapter that returned, a `get` of the same key returns the bytes
  -- that were put.
  pub local_get-local_put :
      (writable : List Text → Bool) (root : List Text) (key content content_type : Text)
      (files : Files) (object : StoredObject) (files' : Files)
      → local_put digest writable root key content content_type files ≡ (ok object, files')
      → local_get root key files' ≡ ok content
  unfolding local_put local_get found read
  local_get-local_put writable root key content content_type files object files' h =
      let (checked, e, h₁) = >>=-eq-ok (validated_key key) _ (stored-ok files files' object _ h) in
      let (path, e', h₂) = >>=-eq-ok (local_path root checked) _ h₁ in
      let new = written-ok writable checked content content_type files path object files' h₂ in
      rw (local_path-twice root key checked e, e', ← new, same_path_refl path) refl

  -- The same for the bucket.
  pub r2_get-r2_put :
      (key content content_type : Text) (objects : Objects) (object : StoredObject)
      (objects' : Objects)
      → r2_put digest key content content_type objects ≡ (ok object, objects')
      → r2_get key objects' ≡ ok content
  unfolding r2_put r2_get found read
  r2_get-r2_put key content content_type objects object objects' h =
      let (checked, e, h₁) =
        >>=-eq-ok (validated_key key) _ (stored-ok objects objects' object _ h) in
      let new = ap (λ (q : StoredObject × Objects). q.1) (ok-injective h₁) in
      rw (e, ← new, same_refl checked) refl

deleted-ok {ℓ} :
    {S : Type ℓ} (old new : S) (r : Result StorageError S)
    → deleted old r ≡ (ok tt, new)
    → r ≡ ok new
unfolding deleted
deleted-ok {S = S} old new (err e) h =
    absurd (let h' = ap (λ (q : Result StorageError (Unit {0}) × S). q.0) h in cc)
deleted-ok {S = S} old new (ok s) h =
    ap (λ x. ok x) (ap (λ (q : Result StorageError (Unit {0}) × S). q.1) h)

-- What was deleted is not found.
pub local_get-local_delete :
    (root : List Text) (key : Text) (files files' : Files)
    → local_delete root key files ≡ (ok tt, files')
    → local_get root key files' ≡ err file_not_found
unfolding local_delete local_get found
local_get-local_delete root key files files' h =
    let (path, e, h₁) = >>=-eq-ok (local_path root key) _ (deleted-ok files files' _ h) in
    rw (e, ← ok-injective h₁, read-remove same_path path files) refl
