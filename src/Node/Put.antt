-- ===== src/Node/Put.antt =====
-- put and del on a node whose keys are in order, against insertion into and removal from an ordered
-- list from its start.
use bbolt.Prelude.{
  ℕ, zero, suc, ◌+◌, ◌≤◌, ◌<◌, ◌≡◌, refl, ap, arith, List, [], ◌∷◌, ◌++◌, true, false, Bool-cases,
  inl, inr, leb, ◌==◌, if◌then◌else◌, length, take, drop, Option, none, some, ok,
}
use bbolt.Prelude.Search.{search_first-Found}
use bbolt.Node.{Bytes, Inode, Node, less, equal, at_least, is_exact, put_at, put, del, find_index}
use bbolt.Node.Keys.{less_irrefl, less_trans, less-equal, less-total, equal→eq, equal_refl}

-- Strictly ascending keys.
abbrev pub Ordered : List Inode → Type 0
Ordered [] = Unit
Ordered (x ∷ []) = Unit
Ordered (x ∷ y ∷ items) = (less x.key y.key ≡ true) × Ordered (y ∷ items)

-- The inode with a key.
abbrev pub get : Bytes → List Inode → Option Inode
get key [] = none
get key (x ∷ items) = if equal x.key key then some x else get key items

-- Insertion from the start: in the place of the inode with the old key, or before the first larger.
abbrev pub place : Bytes → Inode → List Inode → List Inode
place old_key new [] = new ∷ []
place old_key new (x ∷ items) =
    let rest = place old_key new items in
    if equal x.key old_key
    then new ∷ items
    else if less old_key x.key
    then new ∷ x ∷ items
    else x ∷ rest

-- Removal from the start.
abbrev pub remove : Bytes → List Inode → List Inode
remove key [] = []
remove key (x ∷ items) = let rest = remove key items in if equal x.key key then items else x ∷ rest

-- What the search finds, as the recursion needs it.
abbrev pub Around : Bytes → ℕ → List Inode → Type 0
Around key i items =
    (i ≤ length items)
    × ((m : ℕ) → i ≡ suc m → at_least items key m ≡ false)
    × (i < length items → at_least items key i ≡ true)

pub Around-tail :
    (key : Bytes) (i : ℕ) (x : Inode) (items : List Inode)
    → Around key (suc i) (x ∷ items)
    → Around key i items
Around-tail key i x items (le, below, at) =
    (omega arith, λ m e. below (suc m) (ap suc e), λ h. at (omega arith))

pub Ordered-tail : (x : Inode) (items : List Inode) → Ordered (x ∷ items) → Ordered items
Ordered-tail x [] o = tt
Ordered-tail x (y ∷ items) o = o.1

-- All inodes before the index have a smaller key.
pub head-less :
    (key : Bytes) (i : ℕ) (x : Inode) (items : List Inode)
    → Ordered (x ∷ items)
    → Around key (suc i) (x ∷ items)
    → less x.key key ≡ true
head-less key zero x items o (le, below, at) = ground (arith, below 0 refl)
head-less key (suc i) x [] o (le, below, at) = absurd (omega arith)
head-less key (suc i) x (y ∷ items) o r =
    less_trans x.key y.key key o.0
      (head-less key i y items o.1 (Around-tail key (suc i) x (y ∷ items) r))

pub put_at-place :
    (key : Bytes) (new : Inode) (i : ℕ) (items : List Inode)
    → Ordered items
    → Around key i items
    → put_at items key i new ≡ place key new items
put_at-place key new zero [] o r = refl
put_at-place key new (suc i) [] o r = absurd (omega arith)
put_at-place key new zero (x ∷ items) o (le, below, at) =
    ground (arith, at (omega arith), less-total x.key key)
put_at-place key new (suc i) (x ∷ items) o r =
    let lt = head-less key i x items o r in
    ground (
      arith,
      less-equal x.key key lt,
      put_at-place key new i items (Ordered-tail x items o) (Around-tail key i x items r),
    )

find_index-Around : (n : Node) (key : Bytes) → Around key (find_index n key) n.inodes
unfolding find_index
find_index-Around n key =
    let f = search_first-Found (length n.inodes) (at_least n.inodes key) in
    (f.inside, f.below, f.at)

abbrev pub inode_of : Bytes → Bytes → ℕ → ℕ → Inode
inode_of key value pgid flags = record { flags = flags; pgid = pgid; key = key; value = value }

-- put of a page id below the high water mark, and of keys that are not empty, returns on a node with
-- ordered keys: the binary search and the shift do what insertion from the start does.
pub put-place :
    (high_water : ℕ) (n : Node) (old_key new_key value : Bytes) (pgid flags : ℕ)
    → pgid < high_water
    → 0 < length old_key
    → 0 < length new_key
    → Ordered n.inodes
    → put high_water n old_key new_key value pgid flags
      ≡ ok (record n { inodes = place old_key (inode_of new_key value pgid flags) n.inodes })
unfolding put
put-place high_water n old_key new_key value pgid flags low old new o =
    let a : leb high_water pgid ≡ false = ground arith in
    let b : (length old_key == 0) ≡ false = ground arith in
    let c : (length new_key == 0) ≡ false = ground arith in
    rw
      (
        a,
        b,
        c,
        put_at-place old_key (inode_of new_key value pgid flags) (find_index n old_key) n.inodes o
            (find_index-Around n old_key),
      )
      refl

cut_at : List Inode → Bytes → ℕ → List Inode
cut_at items key i = if is_exact items key i then take i items ++ drop (i + 1) items else items

remove-absent :
    (key : Bytes) (x : Inode) (items : List Inode)
    → Ordered (x ∷ items)
    → less key x.key ≡ true
    → remove key (x ∷ items) ≡ x ∷ items
remove-absent key x [] o lt =
    ground (arith, less-equal key x.key lt, equal→eq x.key key, less_irrefl key)
remove-absent key x (y ∷ items) o lt =
    let sub = remove-absent key y items o.1 (less_trans key x.key y.key lt o.0) in
    ground (arith, less-equal key x.key lt, equal→eq x.key key, less_irrefl key, sub)

cut_at-remove :
    (key : Bytes) (i : ℕ) (items : List Inode)
    → Ordered items
    → Around key i items
    → cut_at items key i ≡ remove key items
unfolding cut_at
cut_at-remove key zero [] o r = refl
cut_at-remove key (suc i) [] o r = absurd (omega arith)
cut_at-remove key zero (x ∷ items) o (le, below, at) = elim (Bool-cases (equal x.key key)) [
  | inl e ↦ ground (arith, e)
  | inr e ↦
      let lt : less key x.key ≡ true = less-total x.key key (ground (arith, at (omega arith))) e in
      ground (arith, e, remove-absent key x items o lt)
]
cut_at-remove key (suc i) (x ∷ items) o r =
    let lt = head-less key i x items o r in
    ground (
      arith,
      less-equal x.key key lt,
      cut_at-remove key i items (Ordered-tail x items o) (Around-tail key i x items r),
    )

-- del on a node with ordered keys leaves the inodes that removal from the start leaves.
pub del-remove :
    (n : Node) (key : Bytes) → Ordered n.inodes → (del n key).inodes ≡ remove key n.inodes
unfolding del cut_at
del-remove n key o =
    let e = cut_at-remove key (find_index n key) n.inodes o (find_index-Around n key) in
    elim (Bool-cases (is_exact n.inodes key (find_index n key))) [
      | inl here ↦ ground (arith, here, e)
      | inr gone ↦ ground (arith, gone, e)
    ]

place-first :
    (x : Inode) (key : Bytes) (new : Inode) (items : List Inode)
    → Ordered (x ∷ items)
    → less x.key new.key ≡ true
    → Ordered (place key new items)
    → Ordered (x ∷ place key new items)
place-first x key new [] o lt p = (lt, tt)
place-first x key new (y ∷ items) o lt p = ground (arith, o, lt, p)

-- Insertion under the new inode's own key keeps the order.
pub place-Ordered :
    (new : Inode) (items : List Inode) → Ordered items → Ordered (place new.key new items)
place-Ordered new [] o = tt
place-Ordered new (x ∷ items) o = elim (Bool-cases (equal x.key new.key)) [
  | inl e ↦ same items o e
  | inr e ↦ elim (Bool-cases (less new.key x.key)) [
    | inl lt ↦ rw (e, lt) (lt, o)
    | inr ge ↦
        let lt = less-total new.key x.key ge (flip e) in
        rw (e, ge)
          (place-first x new.key new items o lt (place-Ordered new items (Ordered-tail x items o)))
  ]
]
  where
    same :
        (items : List Inode)
        → Ordered (x ∷ items)
        → equal x.key new.key ≡ true
        → Ordered (place new.key new (x ∷ items))
    same [] o e = rw e tt
    same (y ∷ items) o e = rw e (ground (arith, o, equal→eq x.key new.key e))

    flip : equal x.key new.key ≡ false → equal new.key x.key ≡ false
    flip e = elim (Bool-cases (equal new.key x.key)) [
      | inr f ↦ f
      | inl f ↦ ground (arith, e, equal→eq new.key x.key f)
    ]

pub get-place :
    (key : Bytes) (new : Inode) (items : List Inode)
    → get key (place new.key new items) ≡ (if equal new.key key then some new else get key items)
get-place key new [] = refl
get-place key new (x ∷ items) = ground (
  arith,
  get-place key new items,
  equal→eq x.key new.key,
  equal→eq x.key key,
  equal→eq new.key key,
  equal_refl key,
)

-- put under one key on a node with ordered keys keeps them in order; afterwards the key holds the
-- new inode, and every other key what it held.
pub put-get :
    (high_water : ℕ) (n : Node) (key value : Bytes) (pgid flags : ℕ)
    → pgid < high_water
    → 0 < length key
    → Ordered n.inodes
    → (n' : Node) × (put high_water n key key value pgid flags ≡ ok n')
      × Ordered n'.inodes
      × ((asked : Bytes)
          → get asked n'.inodes ≡ (
              if equal key asked then some (inode_of key value pgid flags) else get asked n.inodes))
put-get high_water n key value pgid flags low some_key o =
    let new = inode_of key value pgid flags in
    (
      record n { inodes = place key new n.inodes },
      put-place high_water n key key value pgid flags low some_key some_key o,
      place-Ordered new n.inodes o,
      λ asked. get-place asked new n.inodes,
    )
