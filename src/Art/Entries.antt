-- ===== src/Art/Entries.antt =====
-- The entries that a scan of src/art.rs gives are those that a lookup finds.
use neural_sgdb.Prelude.{
  ℕ, ◌+◌, true, Option, none, some, List, [], ◌∷◌, ◌++◌, length, All, ltb, ◌==◌, if◌then◌else◌, ◌≡◌,
  refl, sym, ap, ◌∙◌, inl, inr, ◌⊎◌, ◌↔◌, arith, Bool-cases, Option-cases,
}
use neural_sgdb.Prelude.Bytes.{eq_bytes, eq_bytes→eq}
use neural_sgdb.Wire.Utf8.{is_utf8}
use neural_sgdb.Art.{
  Width, w4, w16, w48, w256, Node, leaf, inner, Kids, nil, kid, begins, next_byte, get_rec,
  get_kids,
}
use neural_sgdb.Art.Index.{
  ArtIndex, get, scan_prefix, collect_prefix, collect_kids, row_at_byte, rows_in_byte_order,
  join_rows, join_kids,
}
use neural_sgdb.Art.Count.{get_rec-off, get_rec-on, get_kids_lem}
use neural_sgdb.Art.Rows.{Entry, with_prefix}
use neural_sgdb.Art.Scan.{
  collect-All, collect_whole, collect_kid, descends_nil, scan_prefix-with_prefix,
}
use neural_sgdb.Art.Laws.{IsIndex}

-- The entry stands in the list.
abbrev pub In : Entry → List Entry → Type 0
In e [] = ⊥
In e (x ∷ xs) = (x ≡ e) ⊎ In e xs

abbrev InRows : Entry → List (ℕ × List Entry) → Type 0
InRows e [] = ⊥
InRows e (r ∷ rs) = In e r.1 ⊎ InRows e rs

In-left : (e : Entry) (a b : List Entry) → In e a → In e (a ++ b)
In-left e [] b h = absurd h
In-left e (x ∷ a) b (inl h) = inl h
In-left e (x ∷ a) b (inr h) = inr (In-left e a b h)

In-right : (e : Entry) (a b : List Entry) → In e b → In e (a ++ b)
In-right e [] b h = h
In-right e (x ∷ a) b h = inr (In-right e a b h)

InRows-row_at_byte :
    (e : Entry) (r : ℕ × List Entry) (rs : List (ℕ × List Entry))
    → In e r.1 ⊎ InRows e rs
    → InRows e (row_at_byte r rs)
unfolding row_at_byte
InRows-row_at_byte e r [] h = h
InRows-row_at_byte e r (q ∷ rs) h = elim (Bool-cases (ltb r.0 q.0)) [
  | inl k ↦ rw k h
  | inr k ↦ rw k (elim h [
    | inl a ↦ inr (InRows-row_at_byte e r rs (inl a))
    | inr (inl a) ↦ inl a
    | inr (inr a) ↦ inr (InRows-row_at_byte e r rs (inr a))
  ])
]

InRows-rows_in_byte_order :
    (e : Entry) (rs : List (ℕ × List Entry)) → InRows e rs → InRows e (rows_in_byte_order rs)
unfolding rows_in_byte_order
InRows-rows_in_byte_order e [] h = absurd h
InRows-rows_in_byte_order e (r ∷ rs) (inl h) =
    InRows-row_at_byte e r (rows_in_byte_order rs) (inl h)
InRows-rows_in_byte_order e (r ∷ rs) (inr h) =
    InRows-row_at_byte e r (rows_in_byte_order rs) (inr (InRows-rows_in_byte_order e rs h))

In-join_rows : (e : Entry) (rs : List (ℕ × List Entry)) → InRows e rs → In e (join_rows rs)
unfolding join_rows
In-join_rows e [] h = absurd h
In-join_rows e (r ∷ rs) (inl h) = In-left e r.1 (join_rows rs) h
In-join_rows e (r ∷ rs) (inr h) = In-right e r.1 (join_rows rs) (In-join_rows e rs h)

In-join_kids :
    (e : Entry) (w : Width) (rs : List (ℕ × List Entry)) → InRows e rs → In e (join_kids w rs)
unfolding join_kids
In-join_kids e w4 rs h = In-join_rows e rs h
In-join_kids e w16 rs h = In-join_rows e rs h
In-join_kids e w48 rs h = In-join_rows e (rows_in_byte_order rs) (InRows-rows_in_byte_order e rs h)
In-join_kids e w256 rs h = In-join_rows e rs h

In-leaf :
    (lk key : List ℕ) (u v d d' : ℕ)
    → is_utf8 key ≡ true
    → get_rec (leaf lk u) key d ≡ some v
    → In (key, v) (collect_prefix (leaf lk u) [] d')
unfolding get_rec collect_prefix begins
In-leaf lk key u v d d' text got = elim (Bool-cases (eq_bytes lk key)) [
  | inl e ↦
      let k : lk ≡ key = eq_bytes→eq lk key e in
      let value : u ≡ v = ground (arith, got) in rw (k, text) (inl (rw value refl))
  | inr e ↦ absurd (ground (arith, got))
]

some_absurd : (v : ℕ) → some v ≡ none → ⊥
some_absurd v e = cc

get_kids_nil : (b : ℕ) (key : List ℕ) (d : ℕ) → get_kids nil b key d ≡ none
unfolding get_kids
get_kids_nil b key d = refl

mutual
  In-collect_prefix :
      (n : Node) (key : List ℕ) (v d d' : ℕ)
      → is_utf8 key ≡ true
      → get_rec n key d ≡ some v
      → In (key, v) (collect_prefix n [] d')
  In-collect_prefix (leaf lk u) key v d d' text got = In-leaf lk key u v d d' text got
  In-collect_prefix (inner w p ks) key v d d' text got = elim (Option-cases (next_byte p key d)) [
    | inl e ↦ absurd (some_absurd v (sym got ∙ get_rec-off w p ks key d e))
    | inr (b, e) ↦ rw (collect_whole w p ks d') (
        In-join_kids (key, v) w (collect_kids ks [] (d' + length p))
          (InRows-collect_kids ks b key v (d + length p + 1) (d' + length p) text
            (sym (get_rec-on w p ks key d b e) ∙ got)))
  ]

  InRows-collect_kids :
      (ks : Kids) (b : ℕ) (key : List ℕ) (v d d' : ℕ)
      → is_utf8 key ≡ true
      → get_kids ks b key d ≡ some v
      → InRows (key, v) (collect_kids ks [] d')
  InRows-collect_kids nil b key v d d' text got =
      absurd (some_absurd v (sym got ∙ get_kids_nil b key d))
  InRows-collect_kids (kid b' c ks) b key v d d' text got =
      rw (collect_kid [] b' c ks d' (descends_nil d' b')) (elim (Bool-cases (b' == b)) [
        | inl e ↦ inl (
            In-collect_prefix c key v d (d' + 1) text (
              ap (λ t. if t then get_rec c key d else get_kids ks b key d) (sym e)
              ∙ sym (get_kids_lem b' c ks b key d)
              ∙ got))
        | inr e ↦ inr (
            InRows-collect_kids ks b key v d d' text (
              ap (λ t. if t then get_rec c key d else get_kids ks b key d) (sym e)
              ∙ sym (get_kids_lem b' c ks b key d)
              ∙ got))
      ])

In-All : (P : Entry → Type 0) (es : List Entry) (e : Entry) → All P es → In e es → P e
In-All P [] e h k = absurd k
In-All P (x ∷ es) e h (inl k) = rw (← k) h.0
In-All P (x ∷ es) e h (inr k) = In-All P es e h.1 k

In-with_prefix :
    (prefix : List ℕ) (es : List Entry) (e : Entry)
    → begins prefix e.0 ≡ true
    → In e es
    → In e (with_prefix prefix es)
unfolding with_prefix
In-with_prefix prefix [] e on k = absurd k
In-with_prefix prefix (x ∷ es) e on (inl k) = rw (k, on) (inl refl)
In-with_prefix prefix (x ∷ es) e on (inr k) = elim (Bool-cases (begins prefix x.0)) [
  | inl f ↦ rw f (inr (In-with_prefix prefix es e on k))
  | inr f ↦ rw f (In-with_prefix prefix es e on k)
]

with_prefix-In :
    (prefix : List ℕ) (es : List Entry) (e : Entry)
    → In e (with_prefix prefix es)
    → (begins prefix e.0 ≡ true) × In e es
unfolding with_prefix
with_prefix-In prefix [] e k = absurd k
with_prefix-In prefix (x ∷ es) e k = elim (Bool-cases (begins prefix x.0)) [
  | inl f ↦ elim (rw f at k) [
    | inl same ↦ (rw (← same) f, inl same)
    | inr later ↦ let r = with_prefix-In prefix es e later in (r.0, inr r.1)
  ]
  | inr f ↦ let r = with_prefix-In prefix es e (rw f at k) in (r.0, inr r.1)
]

scan_all :
    (o : Option Node) (len : ℕ) (key : List ℕ) (v : ℕ)
    → IsIndex (record { root = o; len = len })
    → is_utf8 key ≡ true
    → In (key, v) (scan_prefix (record { root = o; len = len }) [])
      ↔ (get (record { root = o; len = len }) key ≡ some v)
unfolding scan_prefix get IsIndex
scan_all none len key v h text = (λ k. absurd k, λ e. absurd cc)
scan_all (some n) len key v h text = (
  λ k.
      In-All (λ e. get_rec n e.0 0 ≡ some e.1) (collect_prefix n [] 0) (key, v)
        (collect-All (λ e. get_rec n e.0 0 ≡ some e.1) n [] 0 h.0 (λ lk u on got. got)) k,
  λ got. In-collect_prefix n key v 0 0 text got,
)

-- In a well-formed index, the scan of a prefix gives an entry with a UTF-8 key exactly if the key
-- begins with the prefix and the lookup of the key finds the entry's value.
pub scan_prefix_iff :
    (t : ArtIndex) (prefix key : List ℕ) (v : ℕ)
    → IsIndex t
    → is_utf8 key ≡ true
    → In (key, v) (scan_prefix t prefix) ↔ ((begins prefix key ≡ true) × (get t key ≡ some v))
scan_prefix_iff t prefix key v h text =
    let full = scan_all t.root t.len key v h text in
    rw (scan_prefix-with_prefix t prefix h) (
      λ k. let r = with_prefix-In prefix (scan_prefix t []) (key, v) k in (r.0, full.0 r.1),
      λ r. In-with_prefix prefix (scan_prefix t []) (key, v) r.0 (full.1 r.1),
    )
