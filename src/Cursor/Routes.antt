-- ===== src/Cursor/Routes.antt =====
-- Where the searches of a cursor go in one page or node whose keys are in order.
use bbolt.Prelude.{
  ℕ, zero, suc, ◌-◌, ◌<◌, ◌≡◌, refl, sym, arith, List, [], ◌∷◌, Bool, true, false, Bool-cases, inl,
  inr, Option, none, some, ltb, if◌then◌else◌, get_elem?, length,
}
use bbolt.Prelude.Search.{
  search_noted, search_first-Found, search_noted_sound, search_noted_complete,
}
use bbolt.Node.{Inode, Bytes, less, equal, at_least, is_exact}
use bbolt.Node.Keys.{less_irrefl, less_trans, less-equal, less-total, equal→eq}
use bbolt.Node.Put.{Ordered, get, Around, Around-tail, Ordered-tail, head-less}
use bbolt.Cursor.{leaf_index, branch_index}

-- The key of the inode at an index, if it is in range.
abbrev pub HasKeyAt : (Bytes → Bool) → List Inode → ℕ → Type 0
HasKeyAt test xs i = (e : Inode) → get_elem? xs i ≡ some e → test e.key ≡ true

-- The first key is below all later ones.
pub Ordered-later :
    (x e : Inode) (xs : List Inode) (i : ℕ)
    → Ordered (x ∷ xs)
    → get_elem? xs i ≡ some e
    → less x.key e.key ≡ true
Ordered-later x e [] i o h = absurd (cc)
Ordered-later x e (y ∷ xs) zero o h = ground (arith, o.0, h)
Ordered-later x e (y ∷ xs) (suc i) o h =
    less_trans x.key y.key e.key o.0 (Ordered-later y e xs i o.1 h)

-- An exact hit is at the index that the search finds.
pub is_exact-Around :
    (key : Bytes) (i h : ℕ) (xs : List Inode)
    → Ordered xs
    → Around key i xs
    → is_exact xs key h ≡ true
    → is_exact xs key i ≡ true
is_exact-Around key i h [] o r e = absurd (cc)
is_exact-Around key zero zero (x ∷ xs) o r e = e
is_exact-Around key zero (suc h) (x ∷ xs) o (le, below, at) e = later (get_elem? xs h) refl e
  where
    later :
        (g : Option Inode)
        → get_elem? xs h ≡ g
        → elim g [ none ↦ false | some item ↦ equal item.key key ] ≡ true
        → equal x.key key ≡ true
    later none q e = absurd (cc)
    later (some y) q e =
        absurd (ground (arith, at (omega arith), Ordered-later x y xs h o q, equal→eq y.key key e))
is_exact-Around key (suc i) zero (x ∷ xs) o r e =
    absurd (ground (arith, e, less-equal x.key key (head-less key i x xs o r)))
is_exact-Around key (suc i) (suc h) (x ∷ xs) o r e =
    is_exact-Around key i h xs (Ordered-tail x xs o) (Around-tail key i x xs r) e

-- What the search in a leaf finds is the item with the key, if there is one.
pub get-Around :
    (key : Bytes) (i : ℕ) (xs : List Inode)
    → Ordered xs
    → Around key i xs
    → get key xs ≡ (if is_exact xs key i then get_elem? xs i else none)
get-Around key i [] o r = refl
get-Around key (suc i) (x ∷ xs) o r = ground (
  arith,
  less-equal x.key key (head-less key i x xs o r),
  get-Around key i xs (Ordered-tail x xs o) (Around-tail key i x xs r),
)
get-Around key zero (x ∷ xs) o (le, below, at) = elim (Bool-cases (equal x.key key)) [
  | inl e ↦ rw e refl
  | inr e ↦
      let lt : less key x.key ≡ true = less-total x.key key (ground (arith, at (omega arith))) e in
      rw e (above x xs o lt)
]
  where
    above :
        (x : Inode) (xs : List Inode) → Ordered (x ∷ xs) → less key x.key ≡ true → get key xs ≡ none
    above x [] o lt = refl
    above x (y ∷ xs) o lt =
        let lt' = less_trans key x.key y.key lt o.0 in
        let ne : equal y.key key ≡ false =
          ground (arith, equal→eq y.key key, less_irrefl key, lt') in
        rw ne (above y xs o.1 lt')

-- Where the search in a branch goes: the key is not below the key there, unless it is the first
-- child, and it is below the next key.
pub record Routed (key : Bytes) (i : ℕ) (xs : List Inode) : Type 0 where
  pub inside : i < length xs
  pub low : (m : ℕ) (e : Inode) → i ≡ suc m → get_elem? xs i ≡ some e → less key e.key ≡ false
  pub high : (e : Inode) → get_elem? xs (suc i) ≡ some e → less key e.key ≡ true

pub leaf_index-Around : (key : Bytes) (xs : List Inode) → Around key (leaf_index key xs) xs
unfolding leaf_index
leaf_index-Around key xs =
    let f = search_first-Found (length xs) (at_least xs key) in (f.inside, f.below, f.at)

pub get_elem?_inside :
    (i : ℕ) (xs : List Inode) → i < length xs → (e : Inode) × (get_elem? xs i ≡ some e)
get_elem?_inside i [] h = absurd (omega arith)
get_elem?_inside zero (x ∷ xs) h = (x, refl)
get_elem?_inside (suc i) (x ∷ xs) h = get_elem?_inside i xs (omega arith)

pub inside-get_elem? :
    (i : ℕ) (e : Inode) (xs : List Inode) → get_elem? xs i ≡ some e → i < length xs
inside-get_elem? i e [] h = absurd (cc)
inside-get_elem? zero e (x ∷ xs) h = omega arith
inside-get_elem? (suc i) e (x ∷ xs) h = omega (arith, inside-get_elem? i e xs h)

pub Ordered-next :
    (a b : Inode) (i : ℕ) (xs : List Inode)
    → Ordered xs
    → get_elem? xs i ≡ some a
    → get_elem? xs (suc i) ≡ some b
    → less a.key b.key ≡ true
Ordered-next a b i [] o g h = absurd (cc)
Ordered-next a b zero (x ∷ xs) o g h = ground (arith, g, Ordered-later x b xs 0 o h)
Ordered-next a b (suc i) (x ∷ xs) o g h = Ordered-next a b i xs (Ordered-tail x xs o) g h

pub is_exact-some :
    (key : Bytes) (i : ℕ) (xs : List Inode)
    → is_exact xs key i ≡ true
    → (e : Inode) × (get_elem? xs i ≡ some e) × (equal e.key key ≡ true)
is_exact-some key i xs h = by_elem (get_elem? xs i) refl h
  where
    by_elem :
        (g : Option Inode)
        → get_elem? xs i ≡ g
        → elim g [ none ↦ false | some item ↦ equal item.key key ] ≡ true
        → (e : Inode) × (get_elem? xs i ≡ some e) × (equal e.key key ≡ true)
    by_elem none q e = absurd (cc)
    by_elem (some y) q e = (y, q, e)

-- The index of a hit, and the one before the place of a key that is not there, if there is one.
pub Routed-exact :
    (key : Bytes) (i : ℕ) (xs : List Inode)
    → Ordered xs
    → is_exact xs key i ≡ true
    → Routed key i xs
Routed-exact key i xs o hit =
    let (e, get, same) = is_exact-some key i xs hit in
    let same' = equal→eq e.key key same in
    record {
      inside = inside-get_elem? i e xs get;
      low = λ m e' q get'. ground (arith, get, get', same', less_irrefl key);
      high = λ e' get'. ground (arith, same', Ordered-next e e' i xs o get get');
    }

pub Routed-first :
    (key : Bytes) (xs : List Inode) → Ordered xs → Around key 0 xs → 0 < length xs → Routed key 0 xs
Routed-first key [] o r h = absurd (omega arith)
Routed-first key (x ∷ xs) o (le, below, at) h = record {
  inside = h;
  low = λ m e q. absurd (omega arith);
  high = λ e get.
      let next = Ordered-later x e xs 0 o get in
      ground (
        arith,
        at (omega arith),
        less-total x.key key,
        equal→eq x.key key,
        less_trans key x.key e.key,
        next,
      );
}

pub Routed-before :
    (key : Bytes) (m : ℕ) (xs : List Inode)
    → Around key (suc m) xs
    → is_exact xs key (suc m) ≡ false
    → Routed key m xs
Routed-before key m xs (le, below, at) miss = record {
  inside = le;
  low = λ m' e q get. ground (arith, below m refl, get, less-equal e.key key);
  high = λ e get.
      ground (arith, at (inside-get_elem? (suc m) e xs get), get, miss, less-total e.key key);
}

pub branch_index-Routed :
    (key : Bytes) (xs : List Inode)
    → Ordered xs
    → 0 < length xs
    → Routed key (branch_index key xs) xs
unfolding branch_index leaf_index
branch_index-Routed key xs o some_elem =
    let n = length xs in
    let f = at_least xs key in
    let g = is_exact xs key in
    let r = leaf_index-Around key xs in
    elim (Bool-cases (search_noted n f g)) [
      | inl exact ↦
          let (h, below, hit) = search_noted_sound n f g exact in
          rw exact (
            Routed-exact key (leaf_index key xs) xs o
              (is_exact-Around key (leaf_index key xs) h xs o r hit))
      | inr exact ↦ rw exact (missed (leaf_index key xs) refl exact)
    ]
  where
    missed :
        (i : ℕ)
        → leaf_index key xs ≡ i
        → search_noted (length xs) (at_least xs key) (is_exact xs key) ≡ false
        → Routed key (if ltb 0 i then i - 1 else i) xs
    missed zero e x = Routed-first key xs o (rw e at (leaf_index-Around key xs)) some_elem
    missed (suc m) e x =
        let less_one : suc m - 1 ≡ m = omega arith in
        let miss : is_exact xs key (suc m) ≡ false = elim (Bool-cases (is_exact xs key (suc m))) [
          | inr no_hit ↦ no_hit
          | inl hit ↦
              let (el, get, same) = is_exact-some key (suc m) xs hit in
              absurd (
                ground (
                  arith,
                  x,
                  search_noted_complete (length xs) (at_least xs key) (is_exact xs key)
                      (rw (sym e) at (inside-get_elem? (suc m) el xs get)) (rw (sym e) at hit),
                ))
        ] in
        let pos : ltb 0 (suc m) ≡ true = ground arith in
        rw (pos, less_one) (Routed-before key m xs (rw e at (leaf_index-Around key xs)) miss)
