-- ===== src/Memory/ApiKeyStore.antt =====
-- `APIKeyStore` (src/internal/storage/memory/apikey.go). A clone is the value itself.
use tokmesh_go.Base.{none, some, List, [], ◌∷◌}
use tokmesh_go.GoMap
use tokmesh_go.GoMap.{GoMap}
use tokmesh_go.Domain.Str.{Str, str_dec}
use tokmesh_go.Domain.Error.{Result, ok, err, api_key_not_found, api_key_conflict}
use tokmesh_go.Domain.ApiKey.{ApiKey}

abbrev pub ApiKeyStore : Type 0
ApiKeyStore = GoMap Str ApiKey

-- `NewAPIKeyStore`
abbrev pub new : ApiKeyStore
new = []

unfoldable pub get : ApiKeyStore → Str → Result ApiKey
get s key_id = elim (GoMap.get str_dec s key_id) [
  | none ↦ err api_key_not_found
  | some key ↦ ok key
]

unfoldable pub create : ApiKeyStore → ApiKey → ApiKeyStore × Result (Unit {0})
create s key = elim (GoMap.get str_dec s key.key_id) [
  | some _ ↦ (s, err api_key_conflict)
  | none ↦ (GoMap.set str_dec s key.key_id key, ok tt)
]

unfoldable pub update : ApiKeyStore → ApiKey → ApiKeyStore × Result (Unit {0})
update s key = elim (GoMap.get str_dec s key.key_id) [
  | none ↦ (s, err api_key_not_found)
  | some _ ↦ (GoMap.set str_dec s key.key_id key, ok tt)
]

unfoldable pub delete : ApiKeyStore → Str → ApiKeyStore × Result (Unit {0})
delete s key_id = elim (GoMap.get str_dec s key_id) [
  | none ↦ (s, err api_key_not_found)
  | some _ ↦ (GoMap.delete str_dec s key_id, ok tt)
]

-- `List`; the order is that of `range`.
unfoldable pub list : ApiKeyStore → List ApiKey
list [] = []
list ((id, key) ∷ s) = key ∷ list s
