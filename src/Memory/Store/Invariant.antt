-- ===== src/Memory/Store/Invariant.antt =====
-- The consistency of the three maps of a store, pointwise: what the token index and the user index
-- say of a token, a user and an ID is what the session stored under that ID says.
use tokmesh_go.Base.{◌≡◌, Bool, true, false, not, Option, none, some, ite}
use tokmesh_go.Domain.Str.{Str, str_dec, is_empty}
use tokmesh_go.Domain.Session.{Session}
use tokmesh_go.Cmap
use tokmesh_go.Memory.UserIndex
use tokmesh_go.Memory.Store.{Store}

-- Whether an entry of the token index is an ID.
unfoldable pub points : Option Str → Str → Bool
points none id = false
points (some j) id = ite (str_dec j id) true false

-- Whether a stored session has a token hash, which is not empty.
unfoldable pub holds : Option Session → Str → Bool
holds none hash = false
holds (some x) hash = ite (str_dec x.token_hash hash) (not (is_empty hash)) false

-- Whether a stored session belongs to a user.
unfoldable pub owned : Option Session → Str → Bool
owned none user = false
owned (some x) user = ite (str_dec x.user_id user) true false

-- Whether a stored session is stored under its own ID.
unfoldable pub named : Option Session → Str → Bool
named none id = true
named (some x) id = ite (str_dec x.id id) true false

pub record IsConsistent (s : Store) : Type 0 where
  pub sessions_valid : Cmap.IsValid s.sessions
  pub tokens_valid : Cmap.IsValid s.tokens
  pub users_valid : UserIndex.IsValid s.user_index
  pub ids : (id : Str) → named (Cmap.get str_dec s.sessions id) id ≡ true
  pub by_token :
      (hash id : Str)
      → points (Cmap.get str_dec s.tokens hash) id ≡ holds (Cmap.get str_dec s.sessions id) hash
  pub by_user :
      (user id : Str)
      → UserIndex.member s.user_index user id ≡ owned (Cmap.get str_dec s.sessions id) user
