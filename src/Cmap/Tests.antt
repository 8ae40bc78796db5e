-- ===== src/Cmap/Tests.antt =====
-- Runs of the sharded map, and instances of its theorems.
use tokmesh_go.Base.{ℕ, ◌≡◌, ◌*◌, refl, some, ite, ℕ_discrete}
use tokmesh_go.GoMap
use tokmesh_go.Cmap
use tokmesh_go.Cmap.{Map, shard_index}
use tokmesh_go.Cmap.Laws as CmapLaws
use tokmesh_go.Cmap.Iter
use tokmesh_go.Cmap.Entries
use tokmesh_go.Cmap.Versioned.{Versioned}

abbrev start : Map ℕ ℕ
start = Cmap.new (λ k. k * 7)

abbrev one : Map ℕ ℕ
one = Cmap.set ℕ_discrete start 3 30

abbrev two : Map ℕ ℕ
two = Cmap.set ℕ_discrete one 19 190

program : Unit {0}
unfolding Cmap.new Cmap.get Cmap.set Cmap.delete Cmap.get_shard Cmap.put_shard GoMap.get GoMap.set
    GoMap.delete Iter.items Iter.count ℕ_discrete
program = tt

two_reads :
    (Cmap.get ℕ_discrete two 3 ≡ some 30)
    × (Cmap.get ℕ_discrete two 19 ≡ some 190)
    × (Iter.count two ≡ 2)
unfolding program
two_reads = (refl, refl, refl)

valid : Cmap.IsValid one
valid = CmapLaws.set-IsValid ℕ_discrete start (CmapLaws.new-IsValid (λ k. k * 7)) 3 30

placed : Entries.IsPlaced ℕ_discrete one
placed = Entries.set-IsPlaced ℕ_discrete start (Entries.new-IsPlaced ℕ ℕ_discrete (λ k. k * 7)) 3 30

items-set_example :
    GoMap.IsUnique ℕ_discrete (Iter.items (Cmap.set ℕ_discrete one 19 190))
    × ((j : ℕ)
        → GoMap.get ℕ_discrete (Iter.items (Cmap.set ℕ_discrete one 19 190)) j
          ≡ ite (ℕ_discrete 19 j) (some 190) (GoMap.get ℕ_discrete (Iter.items one) j))
items-set_example = Entries.items-set ℕ_discrete one valid placed 19 190

-- a value is its own version
abbrev numbers : Versioned ℕ
numbers = record { get_version = λ v. v; set_version = λ v n. n }
