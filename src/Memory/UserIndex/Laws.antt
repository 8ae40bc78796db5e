-- ===== src/Memory/UserIndex/Laws.antt =====
-- The index as a function from users to sets of sessions.
use tokmesh_go.Base.{
  ℕ, ◌+◌, ◌≤◌, ◌≡◌, refl, ap, ◌∙◌, true, false, [], ◌∷◌, ite, arith, Option-cases, inl, inr,
}
use tokmesh_go.Domain.Str.{Str, str_dec}
use tokmesh_go.GoMap
use tokmesh_go.Cmap
use tokmesh_go.Cmap.Laws as CmapLaws
use tokmesh_go.Memory.SessionSet
use tokmesh_go.Memory.SessionSet.{elem}
use tokmesh_go.Memory.UserIndex.{
  UserIndex, IsValid, new_user_index, add, remove, get, count, clear, member, set_at,
}

pub new_user_index-IsValid : (seed : Str → ℕ) → IsValid (new_user_index seed)
unfolding new_user_index
new_user_index-IsValid seed = CmapLaws.new-IsValid seed

pub set_at-new : (seed : Str → ℕ) (u : Str) → set_at (new_user_index seed) u ≡ []
unfolding set_at new_user_index
set_at-new seed u = ground (arith, CmapLaws.get-new {V = SessionSet.Set} str_dec seed u)

pub count-set_at : (i : UserIndex) (u : Str) → count i u ≡ SessionSet.len (set_at i u)
unfolding count set_at
count-set_at i u = ground arith

pub get-set_at : (i : UserIndex) (u : Str) → get i u ≡ SessionSet.items (set_at i u)
unfolding get set_at SessionSet.items
get-set_at i u = ground arith

-- The IDs that `Get` lists are the members.
pub elem-get : (i : UserIndex) (u id : Str) → elem id (get i u) ≡ member i u id
elem-get i u id = ap (elem id) (get-set_at i u) ∙ SessionSet.elem-items (set_at i u) id

empty_of_len-zero : (s : SessionSet.Set) → SessionSet.len s ≡ 0 → s ≡ []
empty_of_len-zero [] h = refl
empty_of_len-zero (e ∷ s) h = absurd (omega arith)

remove-empty : (id : Str) → SessionSet.remove [] id ≡ []
unfolding SessionSet.remove GoMap.delete
remove-empty id = refl

module _ (i : UserIndex) (valid : IsValid i) (u id : Str) where
  pub add-IsValid : IsValid (add i u id)
  unfolding add
  add-IsValid =
      CmapLaws.set-IsValid str_dec _ (CmapLaws.get_or_set-IsValid str_dec i.index valid u []) u _

  pub set_at-add :
      (v : Str)
      → set_at (add i u id) v ≡ ite (str_dec u v) (SessionSet.add (set_at i u) id) (set_at i v)
  unfolding add set_at
  set_at-add v = ground (
    arith,
    CmapLaws.get-set str_dec (Cmap.get_or_set str_dec i.index u []).0
        (CmapLaws.get_or_set-IsValid str_dec i.index valid u []) u
        (SessionSet.add (Cmap.get_or_set str_dec i.index u []).1 id) v,
    CmapLaws.get_or_set_value str_dec i.index valid u [],
    CmapLaws.get-get_or_set str_dec i.index valid u [] v,
  )

  abbrev written : SessionSet.Set → Cmap.Map Str SessionSet.Set
  written held = Cmap.set str_dec i.index u (SessionSet.remove held id)

  written-IsValid : (held : SessionSet.Set) → Cmap.IsValid (written held)
  written-IsValid held = CmapLaws.set-IsValid str_dec i.index valid u _

  pub remove-IsValid : IsValid (remove i u id)
  unfolding remove
  remove-IsValid = elim (Option-cases (Cmap.get str_dec i.index u)) [
    | inl e ↦ rw (e, remove) valid
    | inr (held, e) ↦ ground (
      arith,
      written-IsValid held,
      CmapLaws.delete-IsValid str_dec (written held) (written-IsValid held) u,
    )
  ]

  pub set_at-remove :
      (v : Str)
      → set_at (remove i u id) v
        ≡ ite (str_dec u v) (SessionSet.remove (set_at i u) id) (set_at i v)
  unfolding remove set_at
  set_at-remove v = elim (Option-cases (Cmap.get str_dec i.index u)) [
    | inl e ↦ ground (arith, remove-empty id)
    | inr (held, e) ↦ ground (
      arith,
      CmapLaws.get-set str_dec i.index valid u (SessionSet.remove held id) v,
      CmapLaws.get-delete str_dec (written held) (written-IsValid held) u v,
      empty_of_len-zero (SessionSet.remove held id),
    )
  ]

  pub clear-IsValid : IsValid (clear i u)
  unfolding clear
  clear-IsValid = CmapLaws.delete-IsValid str_dec i.index valid u

  pub set_at-clear : (v : Str) → set_at (clear i u) v ≡ ite (str_dec u v) [] (set_at i v)
  unfolding clear set_at
  set_at-clear v = ground (arith, CmapLaws.get-delete str_dec i.index valid u v)

  -- Members after each operation.
  pub member-add :
      (v j : Str)
      → member (add i u id) v j
        ≡ ite (str_dec u v) (ite (str_dec id j) true (member i v j)) (member i v j)
  member-add v j = ground (arith, set_at-add v, SessionSet.contains-add (set_at i u) id j)

  pub member-remove :
      (v j : Str)
      → member (remove i u id) v j
        ≡ ite (str_dec u v) (ite (str_dec id j) false (member i v j)) (member i v j)
  member-remove v j = ground (arith, set_at-remove v, SessionSet.contains-remove (set_at i u) id j)

  pub member-clear : (v j : Str) → member (clear i u) v j ≡ ite (str_dec u v) false (member i v j)
  member-clear v j = ground (arith, set_at-clear v, SessionSet.contains-empty j)

  pub count-add-le :
      (v : Str) → count (add i u id) v ≤ ite (str_dec u v) (count i v + 1) (count i v)
  count-add-le v = ground (
    arith,
    set_at-add v,
    count-set_at (add i u id) v,
    count-set_at i v,
    SessionSet.len-add-le (set_at i u) id,
  )

  pub count-remove-le : (v : Str) → count (remove i u id) v ≤ count i v
  count-remove-le v = ground (
    arith,
    set_at-remove v,
    count-set_at (remove i u id) v,
    count-set_at i v,
    SessionSet.len-remove-le (set_at i u) id,
  )
