-- ===== src/Memory/Consistent/Tokens.antt =====
-- The helpers on the token index.
use tokmesh_go.Base.{◌≡◌, none, some, ite, arith, if◌then◌else◌}
use tokmesh_go.Domain.Str.{Str, str_dec, is_empty}
use tokmesh_go.Cmap
use tokmesh_go.Cmap.{Map}
use tokmesh_go.Cmap.Laws as CmapLaws
use tokmesh_go.Memory.Store.{drop_token, put_token}

module _ (tokens : Map Str Str) (valid : Cmap.IsValid tokens) (hash : Str) where
  pub get-drop_token :
      (j : Str)
      → Cmap.get str_dec (drop_token tokens hash) j
        ≡ ite
            (str_dec hash j)
            (if is_empty hash then Cmap.get str_dec tokens j else none)
            (Cmap.get str_dec tokens j)
  unfolding drop_token
  get-drop_token j = ground (arith, CmapLaws.get-delete str_dec tokens valid hash j)

  pub drop_token-IsValid : Cmap.IsValid (drop_token tokens hash)
  unfolding drop_token
  drop_token-IsValid = ground (arith, CmapLaws.delete-IsValid str_dec tokens valid hash)

  pub get-put_token :
      (id j : Str)
      → Cmap.get str_dec (put_token tokens hash id) j
        ≡ ite
            (str_dec hash j)
            (if is_empty hash then Cmap.get str_dec tokens j else some id)
            (Cmap.get str_dec tokens j)
  unfolding put_token
  get-put_token id j = ground (arith, CmapLaws.get-set str_dec tokens valid hash id j)

  pub put_token-IsValid : (id : Str) → Cmap.IsValid (put_token tokens hash id)
  unfolding put_token
  put_token-IsValid id = ground (arith, CmapLaws.set-IsValid str_dec tokens valid hash id)
