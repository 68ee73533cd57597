-- ===== src/Storage/Map.antt =====
-- `BTreeMap<Vec<u8>, Vec<u8>>` as src/storage.rs uses it: the pairs in the lexicographic order of
-- their keys.
use neural_sgdb.Prelude.{
  ℕ, ◌≡◌, refl, Bool, true, false, Option, none, some, List, [], ◌∷◌, ◌++◌, arith, ltb, ◌==◌,
  if◌then◌else◌, Bool-cases, inl, inr, ap, sym, append-nil, append_assoc, ◌∙◌,
}
use neural_sgdb.Prelude.Bytes.{eq_bytes, eq_bytes→eq}

abbrev pub Map : Type 0
Map = List (List ℕ × List ℕ)

-- The order of `Vec<u8>`.
unfoldable pub lt_bytes : List ℕ → List ℕ → Bool
lt_bytes xs [] = false
lt_bytes [] (y ∷ ys) = true
lt_bytes (x ∷ xs) (y ∷ ys) = if ltb x y then true else if x == y then lt_bytes xs ys else false

unfoldable pub get : Map → List ℕ → Option (List ℕ)
get [] k = none
get ((j, w) ∷ m) k = if eq_bytes j k then some w else get m k

unfoldable pub insert : List ℕ → List ℕ → Map → Map
insert k v [] = (k, v) ∷ []
insert k v ((j, w) ∷ m) =
    if eq_bytes j k
    then (j, v) ∷ m
    else if lt_bytes k j
    then (k, v) ∷ (j, w) ∷ m
    else (j, w) ∷ insert k v m

unfoldable pub remove : List ℕ → Map → Map
remove k [] = []
remove k ((j, w) ∷ m) = if eq_bytes j k then remove k m else (j, w) ∷ remove k m

unfoldable pub starts_with : List ℕ → List ℕ → Bool
starts_with [] k = true
starts_with (x ∷ xs) [] = false
starts_with (x ∷ xs) (y ∷ ys) = if x == y then starts_with xs ys else false

-- The pairs whose key starts with the prefix, in the map's order.
unfoldable pub scan_prefix : List ℕ → Map → Map
scan_prefix p [] = []
scan_prefix p ((k, v) ∷ m) = if starts_with p k then (k, v) ∷ scan_prefix p m else scan_prefix p m

-- Every key of the map is above `k`.
abbrev pub Above : List ℕ → Map → Type 0
Above k [] = Unit
Above k ((j, w) ∷ m) = (lt_bytes k j ≡ true) × Above k m

-- The keys are strictly ascending.
abbrev pub IsSorted : Map → Type 0
IsSorted [] = Unit
IsSorted ((k, v) ∷ m) = Above k m × IsSorted m

pub lt_bytes_irrefl : (xs : List ℕ) → lt_bytes xs xs ≡ false
unfolding lt_bytes
lt_bytes_irrefl [] = refl
lt_bytes_irrefl (x ∷ xs) = ground (arith, lt_bytes_irrefl xs)

pub lt_bytes_trans :
    (xs ys zs : List ℕ) → lt_bytes xs ys ≡ true → lt_bytes ys zs ≡ true → lt_bytes xs zs ≡ true
unfolding lt_bytes
lt_bytes_trans xs ys [] h k = cc
lt_bytes_trans xs [] (z ∷ zs) h k = cc
lt_bytes_trans [] (y ∷ ys) (z ∷ zs) h k = refl
lt_bytes_trans (x ∷ xs) (y ∷ ys) (z ∷ zs) h k = ground (arith, lt_bytes_trans xs ys zs)

pub lt_bytes_total :
    (xs ys : List ℕ) → eq_bytes xs ys ≡ false → lt_bytes ys xs ≡ false → lt_bytes xs ys ≡ true
unfolding lt_bytes eq_bytes
lt_bytes_total [] [] h k = cc
lt_bytes_total [] (y ∷ ys) h k = refl
lt_bytes_total (x ∷ xs) [] h k = cc
lt_bytes_total (x ∷ xs) (y ∷ ys) h k = ground (arith, lt_bytes_total xs ys)

pub lt_bytes→ne : (xs ys : List ℕ) → lt_bytes xs ys ≡ true → eq_bytes xs ys ≡ false
unfolding lt_bytes eq_bytes
lt_bytes→ne xs [] h = cc
lt_bytes→ne [] (y ∷ ys) h = refl
lt_bytes→ne (x ∷ xs) (y ∷ ys) h = ground (arith, lt_bytes→ne xs ys)

pub eq_bytes_comm : (xs ys : List ℕ) → eq_bytes xs ys ≡ eq_bytes ys xs
unfolding eq_bytes
eq_bytes_comm [] [] = refl
eq_bytes_comm [] (y ∷ ys) = refl
eq_bytes_comm (x ∷ xs) [] = refl
eq_bytes_comm (x ∷ xs) (y ∷ ys) = ground (arith, eq_bytes_comm xs ys)

pub get-insert :
    (k v j : List ℕ) (m : Map) → get (insert k v m) j ≡ (if eq_bytes k j then some v else get m j)
unfolding get insert
get-insert k v j [] = refl
get-insert k v j ((i, w) ∷ m) = elim (Bool-cases (eq_bytes i k)) [
  | inl e ↦ ground (arith, eq_bytes→eq i k e)
  | inr apart ↦ elim (Bool-cases (lt_bytes k i)) [
    | inl l ↦ rw (apart, l, get)
    | inr g ↦ elim (Bool-cases (eq_bytes i j)) [
      | inl same ↦
          let ij = eq_bytes→eq i j same in
          let kj : eq_bytes k j ≡ false = ground (arith, eq_bytes_comm i k) in
          rw (apart, g, get, same, kj)
      | inr other ↦ rw (apart, g, get, other) (get-insert k v j m)
    ]
  ]
]

pub get-remove :
    (k j : List ℕ) (m : Map) → get (remove k m) j ≡ (if eq_bytes k j then none else get m j)
unfolding get remove
get-remove k j [] = ground arith
get-remove k j ((i, w) ∷ m) = elim (Bool-cases (eq_bytes i k)) [
  | inl e ↦
      let ik = eq_bytes→eq i k e in
      let ij : eq_bytes i j ≡ eq_bytes k j = ap (λ l. eq_bytes l j) ik in
      ground (arith, get-remove k j m)
  | inr apart ↦ elim (Bool-cases (eq_bytes i j)) [
    | inl same ↦
        let ij = eq_bytes→eq i j same in
        let kj : eq_bytes k j ≡ false = ground (arith, eq_bytes_comm i k) in
        rw (apart, get, same, kj)
    | inr other ↦ rw (apart, get, other) (get-remove k j m)
  ]
]

Above-trans : (k j : List ℕ) (m : Map) → lt_bytes k j ≡ true → Above j m → Above k m
Above-trans k j [] h a = tt
Above-trans k j ((i, w) ∷ m) h a = (lt_bytes_trans k j i h a.0, Above-trans k j m h a.1)

Above-insert : (i k v : List ℕ) (m : Map) → lt_bytes i k ≡ true → Above i m → Above i (insert k v m)
unfolding insert
Above-insert i k v [] h a = (h, tt)
Above-insert i k v ((j, w) ∷ m) h a = ground (arith, Above-insert i k v m)

Above-remove : (i k : List ℕ) (m : Map) → Above i m → Above i (remove k m)
unfolding remove
Above-remove i k [] a = tt
Above-remove i k ((j, w) ∷ m) a = ground (arith, Above-remove i k m)

pub insert-IsSorted : (k v : List ℕ) (m : Map) → IsSorted m → IsSorted (insert k v m)
unfolding insert
insert-IsSorted k v [] s = (tt, tt)
insert-IsSorted k v ((j, w) ∷ m) s = elim (Bool-cases (eq_bytes j k)) [
  | inl e ↦ rw e s
  | inr apart ↦ elim (Bool-cases (lt_bytes k j)) [
    | inl l ↦ rw (apart, l) ((l, Above-trans k j m l s.0), s)
    | inr g ↦
        rw (apart, g)
          (Above-insert j k v m (lt_bytes_total j k apart g) s.0, insert-IsSorted k v m s.1)
  ]
]

pub remove-IsSorted : (k : List ℕ) (m : Map) → IsSorted m → IsSorted (remove k m)
unfolding remove
remove-IsSorted k [] s = tt
remove-IsSorted k ((j, w) ∷ m) s = ground (arith, Above-remove j k m, remove-IsSorted k m)

last-Above : (j k v : List ℕ) (m : Map) → Above j (m ++ (k, v) ∷ []) → lt_bytes j k ≡ true
last-Above j k v [] a = a.0
last-Above j k v ((i, w) ∷ m) a = last-Above j k v m a.1

lt_bytes_asymm : (xs ys : List ℕ) → lt_bytes xs ys ≡ true → lt_bytes ys xs ≡ false
lt_bytes_asymm xs ys h = elim (Bool-cases (lt_bytes ys xs)) [
  | inl back ↦ cc (lt_bytes_trans xs ys xs h back, lt_bytes_irrefl xs)
  | inr e ↦ e
]

-- In ascending order, insertion builds a map up as it is listed.
abbrev pub insert_all : Map → Map → Map
insert_all m [] = m
insert_all m ((k, v) ∷ rest) = insert_all (insert k v m) rest

-- A key above all of the map's goes to its end.
pub insert_last :
    (k v : List ℕ) (m : Map) → IsSorted (m ++ (k, v) ∷ []) → insert k v m ≡ m ++ (k, v) ∷ []
unfolding insert
insert_last k v [] s = refl
insert_last k v ((j, w) ∷ m) s =
    let below = last-Above j k v m s.0 in
    rw (lt_bytes→ne j k below, lt_bytes_asymm j k below)
      (ap (λ l. (j, w) ∷ l) (insert_last k v m s.1))

IsSorted-front : (m rest : Map) → IsSorted (m ++ rest) → IsSorted m
IsSorted-front [] rest s = tt
IsSorted-front ((k, v) ∷ m) rest s = (above m s.0, IsSorted-front m rest s.1)
  where
    above : (m : Map) → Above k (m ++ rest) → Above k m
    above [] a = tt
    above ((j, w) ∷ m) a = (a.0, above m a.1)

pub insert_all-append : (m rest : Map) → IsSorted (m ++ rest) → insert_all m rest ≡ m ++ rest
insert_all-append m [] s = sym (append-nil m)
insert_all-append m ((k, v) ∷ rest) s =
    let s' : IsSorted ((m ++ (k, v) ∷ []) ++ rest) = rw append_assoc s in
    let last = insert_last k v m (IsSorted-front _ rest s') in
    rw (last) (insert_all-append (m ++ (k, v) ∷ []) rest s' ∙ append_assoc m ((k, v) ∷ []) rest)
