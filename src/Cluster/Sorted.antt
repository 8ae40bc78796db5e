-- ===== src/Cluster/Sorted.antt =====
-- Sorted numbers, and the binary search of Go's package sort, as shard.go uses them.
use tokmesh_go.Base.{
  ℕ, zero, suc, ◌+◌, ◌-◌, ◌/◌, ◌≤◌, ◌<◌, ◌≡◌, refl, Bool, true, false, ◌||◌, List, [], ◌∷◌, length,
  get_or, leb, ltb, ◌==◌, if◌then◌else◌, arith,
}

-- `sort.Slice` by `<`: the order of equal numbers does not show.
unfoldable pub insert : ℕ → List ℕ → List ℕ
insert x [] = x ∷ []
insert x (y ∷ l) = if leb x y then x ∷ y ∷ l else y ∷ insert x l

unfoldable pub sort : List ℕ → List ℕ
unfolding insert
sort [] = []
sort (x ∷ l) = insert x (sort l)

-- The loop of `sort.Search` on `[i, j)`.
unfoldable pub search_loop : ℕ → (ℕ → Bool) → ℕ → ℕ → ℕ
search_loop zero f i j = i
search_loop (suc fuel) f i j =
    let h = (i + j) / 2 in
    let rest = search_loop fuel f (if f h then i else h + 1) (if f h then h else j) in
    if ltb i j then rest else i

-- `sort.Search`: each round shortens the range, so `n` rounds are enough.
unfoldable pub search_first : ℕ → (ℕ → Bool) → ℕ
unfolding search_loop
search_first n f = search_loop n f 0 n

unfoldable pub elem : ℕ → List ℕ → Bool
elem v [] = false
elem v (x ∷ l) = x == v || elem v l

-- Every number of the list is at least `x`.
abbrev pub AllFrom : ℕ → List ℕ → Type 0
AllFrom x [] = Unit
AllFrom x (y ∷ l) = (x ≤ y) × AllFrom x l

abbrev pub IsSorted : List ℕ → Type 0
IsSorted [] = Unit
IsSorted (x ∷ l) = AllFrom x l × IsSorted l

AllFrom-elem : (x v : ℕ) (l : List ℕ) → AllFrom x l → elem v l ≡ true → x ≤ v
unfolding elem
AllFrom-elem x v [] a h = absurd (cc)
AllFrom-elem x v (y ∷ l) a h = ground (arith, AllFrom-elem x v l a.1)

-- The head of a sorted list is its least entry.
head-le : (x w : ℕ) (l : List ℕ) → AllFrom x l → elem w (x ∷ l) ≡ true → x ≤ w
unfolding elem
head-le x w l a m = ground (arith, AllFrom-elem x w l a)

AllFrom-le : (x y : ℕ) (l : List ℕ) → x ≤ y → AllFrom y l → AllFrom x l
AllFrom-le x y [] h a = tt
AllFrom-le x y (z ∷ l) h a = (omega arith, AllFrom-le x y l h a.1)

AllFrom-insert : (x y : ℕ) (l : List ℕ) → x ≤ y → AllFrom x l → AllFrom x (insert y l)
unfolding insert
AllFrom-insert x y [] h a = (h, tt)
AllFrom-insert x y (z ∷ l) h a = ground (arith, AllFrom-insert x y l h a.1)

insert-IsSorted : (x : ℕ) (l : List ℕ) → IsSorted l → IsSorted (insert x l)
unfolding insert
insert-IsSorted x [] s = (tt, tt)
insert-IsSorted x (y ∷ l) s =
    ground (arith, AllFrom-insert y x l, insert-IsSorted x l s.1, AllFrom-le x y l)

pub sort-IsSorted : (l : List ℕ) → IsSorted (sort l)
unfolding sort
sort-IsSorted [] = tt
sort-IsSorted (x ∷ l) = insert-IsSorted x (sort l) (sort-IsSorted l)

elem-insert : (v x : ℕ) (l : List ℕ) → elem v (insert x l) ≡ elem v (x ∷ l)
unfolding insert elem
elem-insert v x [] = refl
elem-insert v x (y ∷ l) = ground (arith, elem-insert v x l)

pub elem-sort : (v : ℕ) (l : List ℕ) → elem v (sort l) ≡ elem v l
unfolding sort elem
elem-sort v [] = refl
elem-sort v (x ∷ l) = ground (arith, elem-insert v x (sort l), elem-sort v l)

length-insert : (x : ℕ) (l : List ℕ) → length (insert x l) ≡ suc (length l)
unfolding insert
length-insert x [] = refl
length-insert x (y ∷ l) = ground (arith, length-insert x l)

pub length-sort : (l : List ℕ) → length (sort l) ≡ length l
unfolding sort
length-sort [] = refl
length-sort (x ∷ l) = ground (arith, length-insert x (sort l), length-sort l)

-- The number of entries below `h`.
unfoldable pub below : ℕ → List ℕ → ℕ
below h [] = 0
below h (x ∷ l) = (if ltb x h then 1 else 0) + below h l

pub below-le : (h : ℕ) (l : List ℕ) → below h l ≤ length l
unfolding below
below-le h [] = omega arith
below-le h (x ∷ l) = ground (arith, below-le h l)

below-AllFrom : (h x : ℕ) (l : List ℕ) → h ≤ x → AllFrom x l → below h l ≡ 0
unfolding below
below-AllFrom h x [] p a = refl
below-AllFrom h x (y ∷ l) p a = ground (arith, below-AllFrom h x l p a.1)

-- On a sorted list the search's test is true exactly from there on.
test-below :
    (h : ℕ) (l : List ℕ) (i : ℕ)
    → IsSorted l
    → i < length l
    → leb h (get_or l i 0) ≡ leb (below h l) i
unfolding below
test-below h [] i s p = absurd (omega arith)
test-below h (x ∷ l) zero s p = ground (arith, below-AllFrom h x l)
test-below h (x ∷ l) (suc i) s p = ground (arith, test-below h l i s.1, below-AllFrom h x l)

search_loop_lem :
    (fuel : ℕ) (f : ℕ → Bool) (n p i j : ℕ)
    → ((x : ℕ) → x < n → f x ≡ leb p x)
    → i ≤ p
    → p ≤ j
    → j ≤ n
    → j - i ≤ fuel
    → search_loop fuel f i j ≡ p
unfolding search_loop
search_loop_lem zero f n p i j test a b c d = omega arith
search_loop_lem (suc fuel) f n p i j test a b c d = ground (
  arith,
  test ((i + j) / 2),
  search_loop_lem fuel f n p i ((i + j) / 2) test,
  search_loop_lem fuel f n p ((i + j) / 2 + 1) j test,
)

-- The binary search finds the first entry that is at least `h`.
pub search_first-below :
    (h : ℕ) (l : List ℕ)
    → IsSorted l
    → search_first (length l) (λ i. leb h (get_or l i 0)) ≡ below h l
unfolding search_first
search_first-below h l s =
    search_loop_lem (length l) (λ i. leb h (get_or l i 0)) (length l) (below h l) 0 (length l)
      (λ i p. test-below h l i s p) (omega arith) (below-le h l) (omega arith) (omega arith)

pub elem-get_or : (l : List ℕ) (i : ℕ) → i < length l → elem (get_or l i 0) l ≡ true
unfolding elem
elem-get_or [] i p = absurd (omega arith)
elem-get_or (x ∷ l) zero p = ground arith
elem-get_or (x ∷ l) (suc i) p = ground (arith, elem-get_or l i)

-- The entry that the search points at is at or above `h`, and the least such one.
pub below-first :
    (h : ℕ) (l : List ℕ) (k w : ℕ)
    → IsSorted l
    → k ≡ below h l
    → k < length l
    → (h ≤ get_or l k 0) × (elem w l ≡ true → h ≤ w → get_or l k 0 ≤ w)
unfolding below elem
below-first h [] k w s e p = absurd (omega arith)
below-first h (x ∷ l) zero w s e p = ground (arith, head-le x w l s.0)
below-first h (x ∷ l) (suc k) w s e p = ground (arith, below-first h l k w s.1, below-AllFrom h x l)

-- The search found nothing: every entry is below `h`.
pub below-all : (h : ℕ) (l : List ℕ) (w : ℕ) → below h l ≡ length l → elem w l ≡ true → w < h
unfolding below elem
below-all h [] w e m = absurd (cc)
below-all h (x ∷ l) w e m = ground (arith, below-all h l w, below-le h l)

-- The first entry of a sorted list is the least.
pub get_or-le : (l : List ℕ) (w : ℕ) → IsSorted l → elem w l ≡ true → get_or l 0 0 ≤ w
unfolding elem
get_or-le [] w s m = absurd (cc)
get_or-le (x ∷ l) w s m = head-le x w l s.0 m
