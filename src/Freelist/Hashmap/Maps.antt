-- ===== src/Freelist/Hashmap/Maps.antt =====
-- The maps of the hashmap back end: how many spans hold an id, and which sizes have which starts.
use bbolt.Prelude.{
  ℕ, ◌+◌, ◌≤◌, ◌≡◌, refl, ap, ◌∙◌, arith, [], ◌∷◌, Bool, true, false, ◌&&◌, ◌==◌, if◌then◌else◌,
  Option, none, some, within, inl, inr, Bool-cases,
}
use bbolt.Prelude.Map.{
  Map, lookup, insert, delete, contains, DistinctKeys, lookup-insert, lookup-delete,
  contains-insert, contains-delete, contains-nil, delete-DistinctKeys, insert-DistinctKeys,
  contains→lookup,
}
use bbolt.Freelist.State.{PidSet}
use bbolt.Freelist.Hashmap.{add_start, delete_start, put_back}

-- How many spans hold the id `a`.
abbrev pub span_count : ℕ → Map ℕ → ℕ
span_count a [] = 0
span_count a ((start, size) ∷ m) = within a start size + span_count a m

pub span_count-insert :
    (a k n : ℕ) (m : Map ℕ)
    → lookup k m ≡ none
    → span_count a (insert k n m) ≡ span_count a m + within a k n
unfolding lookup insert
span_count-insert a k n [] h = omega arith
span_count-insert a k n ((j, v) ∷ m) h = elim (Bool-cases (j == k)) [
  | inl e ↦ ground arith
  | inr e ↦
      let h' : lookup k m ≡ none = ground arith in
      rw e (omega (arith, span_count-insert a k n m h'))
]

pub span_count-delete_absent :
    (a k : ℕ) (m : Map ℕ) → lookup k m ≡ none → span_count a (delete k m) ≡ span_count a m
unfolding lookup delete
span_count-delete_absent a k [] h = refl
span_count-delete_absent a k ((j, v) ∷ m) h = elim (Bool-cases (j == k)) [
  | inl e ↦ ground arith
  | inr e ↦
      let h' : lookup k m ≡ none = ground arith in
      rw e (omega (arith, span_count-delete_absent a k m h'))
]

pub span_count-delete :
    (a k n : ℕ) (m : Map ℕ)
    → DistinctKeys m
    → lookup k m ≡ some n
    → span_count a m ≡ span_count a (delete k m) + within a k n
unfolding lookup delete
span_count-delete a k n [] d h = ground arith
span_count-delete a k n ((j, v) ∷ m) d h = elim (Bool-cases (j == k)) [
  | inl e ↦
      let e' : j ≡ k = ground arith in
      let gone : lookup k m ≡ none = contains→lookup k m (rw e' at d.0) in
      ground (arith, span_count-delete_absent a k m gone)
  | inr e ↦
      let h' : lookup k m ≡ some n = ground arith in
      rw e (omega (arith, span_count-delete a k n m d.1 h'))
]

pub within-le-span_count :
    (a k n : ℕ) (m : Map ℕ) → lookup k m ≡ some n → within a k n ≤ span_count a m
unfolding lookup
within-le-span_count a k n [] h = ground arith
within-le-span_count a k n ((j, v) ∷ m) h = elim (Bool-cases (j == k)) [
  | inl e ↦ ground arith
  | inr e ↦
      let h' : lookup k m ≡ some n = ground arith in omega (arith, within-le-span_count a k n m h')
]

abbrev pub in_starts : Option PidSet → ℕ → Bool
in_starts none s = false
in_starts (some starts) s = contains s starts

-- Whether a size has a start.
abbrev pub has_start : Map PidSet → ℕ → ℕ → Bool
has_start freemaps size start = in_starts (lookup size freemaps) start

contains-insert_found :
    (start s : ℕ) (found : Option PidSet)
    → contains s (insert start tt (elim found [ none ↦ [] | some starts ↦ starts ]))
      ≡ (if start == s then true else in_starts found s)
contains-insert_found start s none =
    ground (arith, contains-insert {V = Unit {0}} start s tt [], contains-nil (Unit {0}) s)
contains-insert_found start s (some starts) = ground (arith, contains-insert start s tt starts)

pub has_start-add_start :
    (start size s n : ℕ) (freemaps : Map PidSet)
    → has_start (add_start start size freemaps) n s
      ≡ (if size == n && start == s then true else has_start freemaps n s)
unfolding add_start
has_start-add_start start size s n freemaps =
    let found = lookup size freemaps in
    let starts = insert start tt (elim found [ none ↦ [] | some starts ↦ starts ]) in
    ap (λ o. in_starts o s) (lookup-insert size n starts freemaps) ∙ elim (Bool-cases (size == n)) [
      | inl e ↦
          let e' : n ≡ size = ground arith in
          rw (e, e') (ground (arith, contains-insert_found start s found))
      | inr e ↦ rw e
    ]

lookup-put_back :
    (size n s : ℕ) (starts : PidSet) (freemaps : Map PidSet)
    → in_starts (lookup n (put_back size starts freemaps)) s
      ≡ (if size == n then contains s starts else in_starts (lookup n freemaps) s)
unfolding put_back
lookup-put_back size n s [] freemaps =
    ap (λ o. in_starts o s) (lookup-delete size n freemaps)
    ∙ ground (arith, contains-nil (Unit {0}) s)
lookup-put_back size n s (x ∷ starts) freemaps =
    ap (λ o. in_starts o s) (lookup-insert size n (x ∷ starts) freemaps) ∙ ground arith

has_start-delete_found :
    (start size s n : ℕ) (freemaps : Map PidSet) (found : Option PidSet)
    → lookup size freemaps ≡ found
    → in_starts
        (lookup n (elim found [
          | none ↦ delete size freemaps
          | some starts ↦ put_back size (delete start starts) freemaps
        ]))
        s
      ≡ (if size == n && start == s then false else in_starts (lookup n freemaps) s)
has_start-delete_found start size s n freemaps none h =
    ap (λ o. in_starts o s) (lookup-delete size n freemaps) ∙ elim (Bool-cases (size == n)) [
      | inl e ↦ let e' : n ≡ size = ground arith in rw (e, e', h) (ground arith)
      | inr e ↦ rw e
    ]
has_start-delete_found start size s n freemaps (some starts) h =
    lookup-put_back size n s (delete start starts) freemaps ∙ elim (Bool-cases (size == n)) [
      | inl e ↦
          let e' : n ≡ size = ground arith in
          rw (e, e', h) (ground (arith, contains-delete start s starts))
      | inr e ↦ rw e
    ]

pub has_start-delete_start :
    (start size s n : ℕ) (freemaps : Map PidSet)
    → has_start (delete_start start size freemaps) n s
      ≡ (if size == n && start == s then false else has_start freemaps n s)
unfolding delete_start
has_start-delete_start start size s n freemaps =
    has_start-delete_found start size s n freemaps (lookup size freemaps) refl

put_back-DistinctKeys :
    (size : ℕ) (starts : PidSet) (freemaps : Map PidSet)
    → DistinctKeys freemaps
    → DistinctKeys (put_back size starts freemaps)
unfolding put_back
put_back-DistinctKeys size [] freemaps d = delete-DistinctKeys size freemaps d
put_back-DistinctKeys size (x ∷ starts) freemaps d =
    insert-DistinctKeys size (x ∷ starts) freemaps d

pub delete_start-DistinctKeys :
    (start size : ℕ) (freemaps : Map PidSet)
    → DistinctKeys freemaps
    → DistinctKeys (delete_start start size freemaps)
unfolding delete_start
delete_start-DistinctKeys start size freemaps d = go (lookup size freemaps)
  where
    go :
        (found : Option PidSet)
        → DistinctKeys (elim found [
          | none ↦ delete size freemaps
          | some starts ↦ put_back size (delete start starts) freemaps
        ])
    go none = delete-DistinctKeys size freemaps d
    go (some starts) = put_back-DistinctKeys size (delete start starts) freemaps d

pub add_start-DistinctKeys :
    (start size : ℕ) (freemaps : Map PidSet)
    → DistinctKeys freemaps
    → DistinctKeys (add_start start size freemaps)
unfolding add_start
add_start-DistinctKeys start size freemaps d = insert-DistinctKeys size _ freemaps d
