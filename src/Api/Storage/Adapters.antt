-- ===== src/Api/Storage/Adapters.antt =====
-- `LocalStorage` and `R2Storage` of services/api/honor_api/storage.py over what they store: the files
-- below the root, and the objects of the bucket. The digest, `urllib.parse.quote`, the signer of boto3
-- and whether a file can be written are arguments.
pub mod Contents
use honor.Common.{
  ℕ, Bool, true, false, ◌&&◌, List, [], ◌∷◌, ◌++◌, Option, none, some, length, Result, ok, err,
  ◌>>=◌, if◌then◌else◌, String, ◌==◌,
}
use honor.Common.Text.{codes, decimal}
use honor.Api.Storage.{
  Text, StorageError, file_not_found, os_error, same, same_path, validated_key, local_path,
}

pub record StoredObject : Type 0 where
  pub key : Text
  pub sha256 : Text
  pub bytes : ℕ
  pub content_type : Text

-- What a text or a path leads to, the newest entry first.
module _ {ℓ} {A : Type ℓ} (same_name : A → A → Bool) where
  unfoldable pub read : A → List (A × Text) → Option Text
  read name [] = none
  read name ((other, content) ∷ rest) =
      if same_name other name then some content else read name rest

  unfoldable pub remove : A → List (A × Text) → List (A × Text)
  remove name [] = []
  remove name ((other, content) ∷ rest) =
      if same_name other name then remove name rest else (other, content) ∷ remove name rest

abbrev pub Files : Type 0
Files = List (List Text × Text)

abbrev pub Objects : Type 0
Objects = List (Text × Text)

unfoldable pub found : Option Text → Result StorageError Text
found none = err file_not_found
found (some content) = ok content

-- The end of a call: the new contents, or the exception and the contents as they were.
unfoldable pub stored {ℓ} :
    {S : Type ℓ} → S → Result StorageError (StoredObject × S) → Result StorageError StoredObject × S
stored old (err e) = (err e, old)
stored old (ok (object, new)) = (ok object, new)

unfoldable pub deleted {ℓ} :
    {S : Type ℓ} → S → Result StorageError S → Result StorageError (Unit {0}) × S
deleted old (err e) = (err e, old)
deleted old (ok new) = (ok tt, new)

module _ (digest : Text → Text) where
  unfoldable pub object_of : Text → Text → Text → StoredObject
  object_of key content content_type = record {
    key = key;
    sha256 = digest content;
    bytes = length content;
    content_type = content_type;
  }

  unfoldable pub written :
      (List Text → Bool)
      → Text
      → Text
      → Text
      → Files
      → List Text
      → Result StorageError (StoredObject × Files)
  written writable key content content_type files path =
      if writable path
      then ok (object_of key content content_type, (path, content) ∷ files)
      else err os_error

  -- `LocalStorage.put`
  unfoldable pub local_put :
      (List Text → Bool)
      → List Text
      → Text
      → Text
      → Text
      → Files
      → Result StorageError StoredObject × Files
  local_put writable root key content content_type files = stored files (
      validated_key key >>= λ checked.
      local_path root checked >>= λ path. written writable checked content content_type files path)

  -- `R2Storage.put`
  unfoldable pub r2_put : Text → Text → Text → Objects → Result StorageError StoredObject × Objects
  r2_put key content content_type objects = stored objects (
      validated_key key >>= λ checked.
      ok (object_of checked content content_type, (checked, content) ∷ objects))

-- `LocalStorage.get`
unfoldable pub local_get : List Text → Text → Files → Result StorageError Text
local_get root key files = local_path root key >>= λ path. found (read same_path path files)

-- `LocalStorage.delete`
unfoldable pub local_delete : List Text → Text → Files → Result StorageError (Unit {0}) × Files
local_delete root key files =
    deleted files (local_path root key >>= λ path. ok (remove same_path path files))

-- `R2Storage.get` and `R2Storage.delete`
unfoldable pub r2_get : Text → Objects → Result StorageError Text
r2_get key objects = validated_key key >>= λ checked. found (read same checked objects)

unfoldable pub r2_delete : Text → Objects → Result StorageError (Unit {0}) × Objects
r2_delete key objects =
    deleted objects (validated_key key >>= λ checked. ok (remove same checked objects))

module _ (quote : Text → Text) where
  unfoldable pub local_presign_get : Text → ℕ → Result StorageError Text
  local_presign_get key ttl = validated_key key >>= λ checked. ok (
      codes "/__dev/storage/"
      ++ quote checked
      ++ codes "?operation=get&ttl="
      ++ codes (decimal ttl))

  unfoldable pub local_presign_put : Text → ℕ → Text → Result StorageError Text
  local_presign_put key ttl content_type = validated_key key >>= λ checked. ok (
      codes "/__dev/storage/"
      ++ quote checked
      ++ codes "?operation=put&ttl="
      ++ codes (decimal ttl)
      ++ codes "&content_type="
      ++ quote content_type)

-- `generate_presigned_url` on a checked key.
unfoldable pub r2_presign : (Text → ℕ → Text) → Text → ℕ → Result StorageError Text
r2_presign sign key ttl = validated_key key >>= λ checked. ok (sign checked ttl)

pub data Adapter : Type 0 where
  local r2 : Adapter

-- `storage`, on `HONOR_ENV.lower()`: production has no fallback to the local disk.
unfoldable pub storage : String → Adapter
storage environment = if environment == "production" then r2 else local
