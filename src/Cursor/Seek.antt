-- ===== src/Cursor/Seek.antt =====
-- The search of a cursor in a tree whose keys are in order finds the key where it is.
use bbolt.Prelude.{
  ℕ, zero, suc, ◌≡◌, refl, sym, ◌∙◌, arith, List, [], ◌∷◌, ◌++◌, true, false, Option, none, some,
  get_elem?,
}
use bbolt.Node.{Inode, Bytes, less}
use bbolt.Node.Keys.{less_trans, less-total, equal→eq}
use bbolt.Node.Put.{Ordered, get}
use bbolt.Cursor.Tree.{Tree, leaf, branch, Children, end, child, inodes_of, items, items_all}
use bbolt.Cursor.Routes.{Ordered-later, Routed, get_elem?_inside}

abbrev pub AllBelow : Bytes → List Inode → Type 0
AllBelow key [] = Unit
AllBelow key (x ∷ xs) = (less x.key key ≡ true) × AllBelow key xs

abbrev pub AllFrom : Bytes → List Inode → Type 0
AllFrom key [] = Unit
AllFrom key (x ∷ xs) = (less x.key key ≡ false) × AllFrom key xs

-- Keys in order: in each leaf and each branch, and between a branch and its children. The key of the
-- first child is no bound: a smaller one may have been put there.
unfoldable mutual
  pub InOrder : Tree → Type 0
  InOrder (leaf id xs) = Ordered xs
  InOrder (branch id cs) = Ordered (inodes_of cs) × Separated cs

  pub Separated : Children → Type 0
  Separated end = Unit
  Separated (child e t cs) = InOrder t × Between t cs × Separated cs

  pub Between : Tree → Children → Type 0
  Between t end = Unit
  Between t (child e t' cs) = AllBelow e.key (items t) × AllFrom e.key (items t')

-- A key is not among larger ones, nor among smaller ones.
get-AllBelow :
    (key bound : Bytes) (xs : List Inode)
    → AllBelow bound xs
    → less key bound ≡ false
    → get key xs ≡ none
get-AllBelow key bound [] a h = refl
get-AllBelow key bound (x ∷ xs) a h =
    ground (arith, a.0, h, equal→eq x.key key, get-AllBelow key bound xs a.1)

get-AllFrom :
    (key bound : Bytes) (xs : List Inode)
    → AllFrom bound xs
    → less key bound ≡ true
    → get key xs ≡ none
get-AllFrom key bound [] a h = refl
get-AllFrom key bound (x ∷ xs) a h =
    ground (arith, a.0, h, equal→eq x.key key, get-AllFrom key bound xs a.1)

pub get-append :
    (key : Bytes) (xs ys : List Inode)
    → get key (xs ++ ys) ≡ elim (get key xs) [ none ↦ get key ys | some e ↦ some e ]
get-append key [] ys = refl
get-append key (x ∷ xs) ys = ground (arith, get-append key xs ys)

-- The keys of the later children are not below a smaller bound.
AllFrom-lower : (a b : Bytes) (xs : List Inode) → less a b ≡ true → AllFrom b xs → AllFrom a xs
AllFrom-lower a b [] h p = tt
AllFrom-lower a b (x ∷ xs) h p =
    (ground (arith, p.0, h, less_trans x.key a b, less-total x.key b), AllFrom-lower a b xs h p.1)

pub AllFrom-append :
    (a : Bytes) (xs ys : List Inode) → AllFrom a xs → AllFrom a ys → AllFrom a (xs ++ ys)
AllFrom-append a [] ys p q = q
AllFrom-append a (x ∷ xs) ys p q = (p.0, AllFrom-append a xs ys p.1 q)

AllFrom-children :
    (e : Inode) (t : Tree) (cs : Children)
    → Ordered (inodes_of (child e t cs))
    → Separated (child e t cs)
    → AllFrom e.key (items t)
    → AllFrom e.key (items_all (child e t cs))
unfolding Separated items
AllFrom-children e t end o s p = AllFrom-append e.key (items t) [] p tt
AllFrom-children e t (child e' t' cs) o s p =
    AllFrom-append e.key (items t) (items_all (child e' t' cs)) p (
      AllFrom-lower e.key e'.key (items_all (child e' t' cs)) o.0
        (AllFrom-children e' t' cs o.1 s.2 s.1.1))

-- The child at an index.
abbrev pub nth_tree : ℕ → Children → Option Tree
nth_tree i end = none
nth_tree zero (child e t cs) = some t
nth_tree (suc i) (child e t cs) = nth_tree i cs

-- The key of the first child that is not below is that of no later one.
low_first :
    (key : Bytes) (e e' : Inode) (i : ℕ) (xs : List Inode)
    → Ordered (e ∷ xs)
    → get_elem? (e ∷ xs) i ≡ some e'
    → less key e'.key ≡ false
    → less key e.key ≡ false
low_first key e e' zero xs o g h = ground (arith, g, h)
low_first key e e' (suc i) xs o g h =
    ground (arith, h, less_trans key e.key e'.key, Ordered-later e e' xs i o g)

-- A key that is somewhere in a branch is in the child that the search goes to.
pub get-Routed :
    (key : Bytes) (i : ℕ) (cs : Children) (t : Tree)
    → Ordered (inodes_of cs)
    → Separated cs
    → Routed key i (inodes_of cs)
    → nth_tree i cs ≡ some t
    → get key (items_all cs) ≡ get key (items t)
unfolding Separated items
get-Routed key i end t o s r n = absurd (cc)
get-Routed key zero (child e t0 end) t o s r n =
    let same : t0 ≡ t = ground (arith, n) in
    rw (sym same) (ground (arith, get-append key (items t0) []))
get-Routed key zero (child e t0 (child e' t' cs)) t o s r n =
    let same : t0 ≡ t = ground (arith, n) in
    let rest = items_all (child e' t' cs) in
    let none_later : get key rest ≡ none =
      get-AllFrom key e'.key rest (AllFrom-children e' t' cs o.1 s.2 s.1.1) (r.high e' refl) in
    rw (sym same) (ground (arith, get-append key (items t0) rest, none_later))
get-Routed key (suc i) (child e t0 end) t o s r n = absurd (cc)
get-Routed key (suc i) (child e t0 (child e' t' cs)) t o s r n =
    let rest = items_all (child e' t' cs) in
    let (el, get_el) = get_elem?_inside i (e' ∷ inodes_of cs) (omega (arith, r.inside)) in
    let low = low_first key e' el i (inodes_of cs) o.1 get_el (r.low i el refl get_el) in
    let none_before = get-AllBelow key e'.key (items t0) s.1.0 low in
    let sub =
      get-Routed key i (child e' t' cs) t o.1 s.2
        (record {
          inside = omega (arith, r.inside);
          low = λ m d q g. r.low i d refl g;
          high = r.high;
        })
        n in
    get-append key (items t0) rest ∙ rw none_before sub
